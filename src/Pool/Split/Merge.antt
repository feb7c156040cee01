-- ===== src/Pool/Split/Merge.antt =====
-- Merging outputs of one script.
use dinero_sv.Base.{ℕ, ◌+◌, ◌^◌, ◌≡◌, ◌<◌, refl, arith, List, [], ◌∷◌, All, if◌then◌else◌, false}
use dinero_sv.Bytestring.{Bytes, bytes_eq, bytes_eq→eq}
use dinero_sv.Pool.Split.{CoinbaseOutput, merge_into, merge_loop, merge_duplicate_outputs}
use dinero_sv.Pool.Split.Conservation.{sum_values}

-- What is paid to one script.
abbrev pub paid_to : Bytes → List CoinbaseOutput → ℕ
paid_to s [] = 0
paid_to s (o ∷ os) = (if bytes_eq o.script_pubkey s then o.value_una else 0) + paid_to s os

-- No script stands twice.
abbrev pub IsAbsent : Bytes → List CoinbaseOutput → Type 0
IsAbsent s = All (λ o. bytes_eq s o.script_pubkey ≡ false)

abbrev pub AreDistinct : List CoinbaseOutput → Type 0
AreDistinct [] = Unit
AreDistinct (o ∷ os) = IsAbsent o.script_pubkey os × AreDistinct os

paid_to-merge_into :
    (s : Bytes) (o : CoinbaseOutput) (es : List CoinbaseOutput)
    → sum_values es + o.value_una < 2 ^ 64
    → paid_to s (merge_into o es)
      ≡ (if bytes_eq o.script_pubkey s then o.value_una else 0) + paid_to s es
unfolding merge_into
paid_to-merge_into s o [] h = refl
paid_to-merge_into s o (e ∷ es) h =
    ground (arith, paid_to-merge_into s o es, bytes_eq→eq e.script_pubkey o.script_pubkey)

sum-merge_into :
    (o : CoinbaseOutput) (es : List CoinbaseOutput)
    → sum_values es + o.value_una < 2 ^ 64
    → sum_values (merge_into o es) ≡ sum_values es + o.value_una
unfolding merge_into
sum-merge_into o [] h = omega arith
sum-merge_into o (e ∷ es) h = ground (arith, sum-merge_into o es)

merge_into-IsAbsent :
    (s : Bytes) (o : CoinbaseOutput) (es : List CoinbaseOutput)
    → bytes_eq s o.script_pubkey ≡ false
    → IsAbsent s es
    → IsAbsent s (merge_into o es)
unfolding merge_into
merge_into-IsAbsent s o [] h k = (h, tt)
merge_into-IsAbsent s o (e ∷ es) h k = ground (arith, merge_into-IsAbsent s o es)

merge_into-AreDistinct :
    (o : CoinbaseOutput) (es : List CoinbaseOutput) → AreDistinct es → AreDistinct (merge_into o es)
unfolding merge_into
merge_into-AreDistinct o [] h = (tt, tt)
merge_into-AreDistinct o (e ∷ es) h =
    ground (arith, merge_into-AreDistinct o es, merge_into-IsAbsent e.script_pubkey o es)

merge_loop_lem :
    (s : Bytes) (merged os : List CoinbaseOutput)
    → sum_values merged + sum_values os < 2 ^ 64
    → AreDistinct merged
    → AreDistinct (merge_loop merged os)
      × (paid_to s (merge_loop merged os) ≡ paid_to s merged + paid_to s os)
unfolding merge_loop
merge_loop_lem s merged [] h d = (d, omega arith)
merge_loop_lem s merged (o ∷ os) h d =
    let (d', e) =
      merge_loop_lem s (merge_into o merged) os
        (omega (arith, sum-merge_into o merged (omega arith)))
        (merge_into-AreDistinct o merged d) in
    (d', omega (arith, e, paid_to-merge_into s o merged (omega arith)))

-- Where the values add up to a `u64`, the merged outputs have no script twice, and pay to each
-- script what the given outputs pay to it.
pub merge_duplicate_outputs_lem :
    (s : Bytes) (os : List CoinbaseOutput)
    → sum_values os < 2 ^ 64
    → AreDistinct (merge_duplicate_outputs os)
      × (paid_to s (merge_duplicate_outputs os) ≡ paid_to s os)
unfolding merge_duplicate_outputs
merge_duplicate_outputs_lem s os h =
    let (d, e) = merge_loop_lem s [] os (omega arith) tt in (d, omega (arith, e))
