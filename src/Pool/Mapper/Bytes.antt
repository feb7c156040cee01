-- ===== src/Pool/Mapper/Bytes.antt =====
-- The bytes of inputs, outputs and witness stacks, in front of what follows them.
use dinero_sv.Base.{ℕ, ◌≡◌, refl, sym, ap, ◌∙◌, List, [], ◌∷◌, ◌++◌, append_assoc, length}
use dinero_sv.Varint.{write_varint}
use dinero_sv.Coinbase.{CoinbaseOutput, output_bytes, outputs_bytes}
use dinero_sv.Pool.Mapper.Walk.{TxInput, inputs_bytes, items_bytes, stacks_bytes}

four :
    (a b c d e r : List ℕ) → a ++ (b ++ (c ++ (d ++ (e ++ r)))) ≡ (a ++ (b ++ (c ++ (d ++ e)))) ++ r
four a b c d e r = simp append_assoc

pub inputs_bytes-append :
    (is : List TxInput) (rest : List ℕ) → inputs_bytes is rest ≡ inputs_bytes is [] ++ rest
unfolding inputs_bytes
inputs_bytes-append [] rest = refl
inputs_bytes-append (i ∷ is) rest =
    ap
      (λ l.
        i.prevout ++ (write_varint (length i.script_sig) ++ (i.script_sig ++ (i.sequence ++ l))))
      (inputs_bytes-append is rest)
    ∙ four i.prevout (write_varint (length i.script_sig)) i.script_sig i.sequence
        (inputs_bytes is []) rest

pub outputs_bytes-append :
    (outs : List CoinbaseOutput) (rest : List ℕ)
    → outputs_bytes outs rest ≡ outputs_bytes outs [] ++ rest
unfolding outputs_bytes
outputs_bytes-append [] rest = refl
outputs_bytes-append (o ∷ outs) rest =
    ap (λ l. output_bytes o ++ l) (outputs_bytes-append outs rest)
    ∙ sym (append_assoc (output_bytes o) (outputs_bytes outs []) rest)

items_bytes-append :
    (ss : List (List ℕ)) (a b : List ℕ) → items_bytes ss (a ++ b) ≡ items_bytes ss a ++ b
unfolding items_bytes
items_bytes-append [] a b = refl
items_bytes-append (s ∷ ss) a b =
    ap (λ l. write_varint (length s) ++ (s ++ l)) (items_bytes-append ss a b)
    ∙ ap (λ l. write_varint (length s) ++ l) (sym (append_assoc s (items_bytes ss a) b))
    ∙ sym (append_assoc (write_varint (length s)) _ b)

pub stacks_bytes-append :
    (sss : List (List (List ℕ))) (rest : List ℕ)
    → stacks_bytes sss rest ≡ stacks_bytes sss [] ++ rest
unfolding stacks_bytes
stacks_bytes-append [] rest = refl
stacks_bytes-append (ss ∷ sss) rest =
    ap (λ l. write_varint (length ss) ++ items_bytes ss l) (stacks_bytes-append sss rest)
    ∙ ap (λ l. write_varint (length ss) ++ l) (items_bytes-append ss (stacks_bytes sss []) rest)
    ∙ sym (append_assoc (write_varint (length ss)) _ rest)
