-- ===== src/Net/Masks.antt =====
-- Networks as sets of addresses: what a byte of a mask that `net.CIDRMask` makes lets vary.
use netcage.Base.{
  ℕ, zero, suc, ◌+◌, ◌-◌, ◌%◌, ◌^◌, ◌≤◌, ◌<◌, bit_and, bit_or, Bool, true, ◌&&◌, ◌≡◌, refl, sym, ap,
  ◌∙◌, ◌==◌, ==_iff, arith, and-eq-true,
}

-- The test holds of the numbers from zero up to the bound.
table : (ℕ → Bool) → ℕ → Bool
table test zero = true
table test (suc top) = table test top && test top

table_entry : (test : ℕ → Bool) (top : ℕ) {i : ℕ} → i < top → table test top ≡ true → test i ≡ true
unfolding table
table_entry test zero lt full = absurd (omega arith)
table_entry test (suc top) {i} lt full = ground (arith, table_entry test top {i = i})

-- A mask byte keeps the bits above the lowest `k`, and its complement sets the lowest `k`.
abbrev masks_well : ℕ → ℕ → Bool
masks_well k x =
    bit_and x (256 - 2 ^ k) == x - x % 2 ^ k
    && bit_or (x - x % 2 ^ k) (2 ^ k - 1) == (x - x % 2 ^ k) + (2 ^ k - 1)

byte_masks : table (λ k. table (masks_well k) 256) 9 ≡ true
unfolding table
byte_masks = refl

masks_well_at : (k x : ℕ) → k < 9 → x < 256 → masks_well k x ≡ true
masks_well_at k x hk hx =
    table_entry (masks_well k) 256 hx (table_entry (λ k. table (masks_well k) 256) 9 hk byte_masks)

pub and_mask : (k x : ℕ) → k < 9 → x < 256 → bit_and x (256 - 2 ^ k) ≡ x - x % 2 ^ k
and_mask k x hk hx = (==_iff _ _).0 (and-eq-true _ _ (masks_well_at k x hk hx)).0

pub or_mask :
    (k x : ℕ) → k < 9 → x < 256 → bit_or (x - x % 2 ^ k) (2 ^ k - 1) ≡ (x - x % 2 ^ k) + (2 ^ k - 1)
or_mask k x hk hx = (==_iff _ _).0 (and-eq-true _ _ (masks_well_at k x hk hx)).1

-- The same facts about the numbers with their lowest `k` bits cleared.
floor_between :
    (k n x : ℕ)
    → k < 9
    → n < 256
    → x < 256
    → let f = n - n % 2 ^ k in
      f - f % 2 ^ k ≡ x - x % 2 ^ k → (f ≤ x) × (x ≤ f + (2 ^ k - 1)) × (f + (2 ^ k - 1) < 256)
floor_between zero n x hk hn hx h = omega arith
floor_between (suc zero) n x hk hn hx h = omega arith
floor_between (suc (suc zero)) n x hk hn hx h = omega arith
floor_between (suc (suc (suc zero))) n x hk hn hx h = omega arith
floor_between (suc (suc (suc (suc zero)))) n x hk hn hx h = omega arith
floor_between (suc (suc (suc (suc (suc zero))))) n x hk hn hx h = omega arith
floor_between (suc (suc (suc (suc (suc (suc zero)))))) n x hk hn hx h = omega arith
floor_between (suc (suc (suc (suc (suc (suc (suc zero))))))) n x hk hn hx h = omega arith
floor_between (suc (suc (suc (suc (suc (suc (suc (suc zero)))))))) n x hk hn hx h = omega arith
floor_between (suc (suc (suc (suc (suc (suc (suc (suc (suc k))))))))) n x hk hn hx h =
    absurd (omega arith)

complements : ℕ → Bool
complements k = 255 - (256 - 2 ^ k) == 2 ^ k - 1

complement_bytes : table complements 9 ≡ true
unfolding table complements
complement_bytes = refl

complement : (k : ℕ) → k < 9 → 255 - (256 - 2 ^ k) ≡ 2 ^ k - 1
unfolding complements
complement k hk = (==_iff _ _).0 (table_entry complements 9 hk complement_bytes)

-- A byte of an address that agrees with a byte of the network under its mask lies between the
-- byte of the first address and that of the last one.
pub between :
    (k n x : ℕ)
    → k < 9
    → n < 256
    → x < 256
    → let m = 256 - 2 ^ k in
      let first = bit_and n m in
      bit_and first m ≡ bit_and x m
      → (first ≤ x) × (x ≤ bit_or first (255 - m)) × (bit_or first (255 - m) < 256)
between k n x hk hn hx h =
    rw (complement k hk, and_mask k n hk hn, or_mask k n hk hn)
      (floor_between k n x hk hn hx (
        sym (and_mask k _ hk (omega arith))
        ∙ ap (λ y. bit_and y (256 - 2 ^ k)) (sym (and_mask k n hk hn))
        ∙ h
        ∙ and_mask k x hk hx))

pub bit_and_255 : (x : ℕ) → x < 256 → bit_and x 255 ≡ x
bit_and_255 x h = and_mask 0 x (omega arith) h ∙ omega arith
