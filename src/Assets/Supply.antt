-- ===== src/Assets/Supply.antt =====
-- What minting and burning do to the supply of a token.
use zephyr_chain.Base.{
  ℕ, ◌+◌, ◌-◌, ◌≤◌, ◌<◌, ◌≡◌, refl, sym, ap, ◌∙◌, ◌≢◌, ◌↔◌, true, false, arith, ok,
}
use zephyr_chain.Codec.BigEndian.{IsU64}
use zephyr_chain.Assets.SupplyPolicy
use zephyr_chain.Assets.{Definition, validate, header_fails, policy_fails, mint, burn}

-- What `Mint` demands of the definition and the amount.
pub record CanMint (d : Definition) (amount : ℕ) : Type 0 where
  pub valid : validate d ≡ ok tt
  pub positive : 0 < amount
  pub not_fixed : d.supply_policy ≢ SupplyPolicy.fixed
  pub no_overflow : IsU64 (d.current_supply + amount)
  pub within_cap : d.supply_policy ≡ SupplyPolicy.capped → d.current_supply + amount ≤ d.max_supply

-- What `Burn` demands.
pub record CanBurn (d : Definition) (amount : ℕ) : Type 0 where
  pub valid : validate d ≡ ok tt
  pub burnable : d.burnable ≡ true
  pub positive : 0 < amount
  pub covered : amount ≤ d.current_supply

validate_parts :
    (d : Definition) → (validate d ≡ ok tt) ↔ ((header_fails d ≡ false) × (policy_fails d ≡ false))
unfolding validate
validate_parts d = (λ h. ground arith, λ h. rw (h.0, h.1))

-- The header does not depend on the supply, so a change of it keeps it valid.
header-supply :
    (d : Definition) (s : ℕ) → header_fails (record d { current_supply = s }) ≡ header_fails d
unfolding header_fails
header-supply d s = refl

validate-grow :
    (d : Definition) (amount : ℕ)
    → validate d ≡ ok tt
    → d.supply_policy ≢ SupplyPolicy.fixed
    → (d.supply_policy ≡ SupplyPolicy.capped → d.current_supply + amount ≤ d.max_supply)
    → validate (record d { current_supply = d.current_supply + amount }) ≡ ok tt
validate-grow d amount v f c =
    let (header, policy) = (validate_parts d).0 v in
    (validate_parts _).1
      (rw (header-supply d (d.current_supply + amount)) header, unfold policy_fails in ground arith)

validate-shrink :
    (d : Definition) (amount : ℕ)
    → validate d ≡ ok tt
    → validate (record d { current_supply = d.current_supply - amount }) ≡ ok tt
validate-shrink d amount v =
    let (header, policy) = (validate_parts d).0 v in
    (validate_parts _).1
      (rw (header-supply d (d.current_supply - amount)) header, unfold policy_fails in ground arith)

mint_sound :
    (d n : Definition) (amount : ℕ)
    → IsU64 d.current_supply
    → mint d amount ≡ ok n
    → CanMint d amount × (n ≡ record d { current_supply = d.current_supply + amount })
unfolding mint
mint_sound d n amount fits e = ground arith

mint_complete :
    (d : Definition) (amount : ℕ)
    → CanMint d amount
    → mint d amount ≡ ok (record d { current_supply = d.current_supply + amount })
unfolding mint
mint_complete d amount c = ground (arith, validate-grow d amount c.valid c.not_fixed c.within_cap)

burn_sound :
    (d n : Definition) (amount : ℕ)
    → burn d amount ≡ ok n
    → CanBurn d amount × (n ≡ record d { current_supply = d.current_supply - amount })
unfolding burn
burn_sound d n amount e = ground arith

burn_complete :
    (d : Definition) (amount : ℕ)
    → CanBurn d amount
    → burn d amount ≡ ok (record d { current_supply = d.current_supply - amount })
unfolding burn
burn_complete d amount c = ground (arith, validate-shrink d amount c.valid)

-- Minting succeeds exactly when the definition is valid and not of fixed supply, the amount is
-- positive, the new supply is a `uint64` and, for a capped token, at most the cap; the result is the
-- definition with the amount added to its supply and nothing else changed.
pub mint-eq-ok_iff :
    (d n : Definition) (amount : ℕ)
    → IsU64 d.current_supply
    → (mint d amount ≡ ok n)
      ↔ (CanMint d amount × (n ≡ record d { current_supply = d.current_supply + amount }))
mint-eq-ok_iff d n amount fits =
    (mint_sound d n amount fits, λ h. rw h.1 (mint_complete d amount h.0))

-- Burning succeeds exactly when the definition is valid and burnable and the amount is positive and
-- at most the supply; the result is the definition with the amount taken off its supply and nothing
-- else changed.
pub burn-eq-ok_iff :
    (d n : Definition) (amount : ℕ)
    → (burn d amount ≡ ok n)
      ↔ (CanBurn d amount × (n ≡ record d { current_supply = d.current_supply - amount }))
burn-eq-ok_iff d n amount = (burn_sound d n amount, λ h. rw h.1 (burn_complete d amount h.0))

-- The definitions that successful operations make of `d`, with the totals minted and burned.
pub data History (d : Definition) : Definition → ℕ → ℕ → Type 0 where
  here : History d d 0 0
  minted :
      {n n' : Definition} {m b : ℕ} (amount : ℕ)
      → History d n m b
      → mint n amount ≡ ok n'
      → History d n' (m + amount) b
  burned :
      {n n' : Definition} {m b : ℕ} (amount : ℕ)
      → History d n m b
      → burn n amount ≡ ok n'
      → History d n' m (b + amount)

-- What every history keeps.
pub record Accounted (d n : Definition) (m b : ℕ) : Type 0 where
  pub valid : validate n ≡ ok tt
  pub fits : IsU64 n.current_supply
  pub balance : n.current_supply + b ≡ d.current_supply + m
  pub same : n ≡ record d { current_supply = n.current_supply }
  pub unminted : d.supply_policy ≡ SupplyPolicy.fixed → m ≡ 0

mint-valid : (d n : Definition) (amount : ℕ) → mint d amount ≡ ok n → validate n ≡ ok tt
unfolding mint
mint-valid d n amount e = ground arith

burn-valid : (d n : Definition) (amount : ℕ) → burn d amount ≡ ok n → validate n ≡ ok tt
unfolding burn
burn-valid d n amount e = ground arith

-- Along every history of mints and burns from a valid definition the definition stays valid with a
-- `uint64` supply, what was there and was minted is what is there and was burned, nothing but the
-- supply changes, and a token of fixed supply is never minted.
pub History-Accounted :
    {d n : Definition} {m b : ℕ}
    → validate d ≡ ok tt
    → IsU64 d.current_supply
    → History d n m b
    → Accounted d n m b
History-Accounted v f here = record {
  valid = v;
  fits = f;
  balance = omega arith;
  same = refl;
  unminted = λ _. refl;
}
History-Accounted {d} v f (minted {n = n} {n' = n'} amount h e) =
    let i = History-Accounted v f h in
    let (can, is) = mint_sound n n' amount i.fits e in
    record {
      valid = mint-valid n n' amount e;
      fits = rw is can.no_overflow;
      balance = rw is (omega (arith, i.balance));
      same = rw is (ground (arith, i.same));
      unminted = λ fixed. absurd (can.not_fixed (rw i.same fixed));
    }
History-Accounted {d} v f (burned {n = n} {n' = n'} amount h e) =
    let i = History-Accounted v f h in
    let (can, is) = burn_sound n n' amount e in
    record {
      valid = burn-valid n n' amount e;
      fits = rw is (omega (arith, i.fits));
      balance = rw is (omega (arith, i.balance, can.covered));
      same = rw is (ground (arith, i.same));
      unminted = i.unminted;
    }

valid-cap :
    (d : Definition)
    → validate d ≡ ok tt
    → d.supply_policy ≢ SupplyPolicy.mintable
    → d.current_supply ≤ d.max_supply
unfolding validate policy_fails
valid-cap d v h = ground arith

-- Whatever is minted and burned, the supply of a capped or fixed token stays within the cap that it
-- was created with.
pub History-within_cap :
    {d n : Definition} {m b : ℕ}
    → validate d ≡ ok tt
    → IsU64 d.current_supply
    → d.supply_policy ≢ SupplyPolicy.mintable
    → History d n m b
    → n.current_supply ≤ d.max_supply
History-within_cap {d} {n} v f p h =
    let i = History-Accounted v f h in
    let cap : n.current_supply ≤ n.max_supply =
      valid-cap n i.valid (λ e. p (ap (λ (x : Definition). x.supply_policy) (sym i.same) ∙ e)) in
    omega (arith, cap, ap (λ (x : Definition). x.max_supply) i.same)
