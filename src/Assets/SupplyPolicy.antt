-- ===== src/Assets/SupplyPolicy.antt =====
-- `type SupplyPolicy uint8`, in the order of the source's `iota`.
use zephyr_chain.Base.{ℕ}

abbrev pub capped : ℕ
capped = 0

abbrev pub fixed : ℕ
fixed = 1

abbrev pub mintable : ℕ
mintable = 2
