-- ===== src/Pool/Template/Complete.antt =====
-- The pool's own coinbase and the checks that it makes of a miner's.
use dinero_sv.Base.{◌≡◌, List, some, ok}
use dinero_sv.Coinbase.{CoinbaseOutput}
use dinero_sv.Pool.Work.{SharedTemplate}
use dinero_sv.Pool.Template.{Built}

-- What a step gives has these outputs.
abbrev Gives : List CoinbaseOutput → Built SharedTemplate → Type 0
Gives outputs b = (st : SharedTemplate) → b ≡ some (ok st) → st.outputs ≡ outputs
