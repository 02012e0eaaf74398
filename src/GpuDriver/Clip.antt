-- ===== src/GpuDriver/Clip.antt =====
-- One axis of a rectangle of kernel/src/gpu_driver.rs: what the screen leaves of a span.
use polymorph_os.Prelude.{
  ℕ, suc, ◌+◌, ◌-◌, ◌^◌, ◌≤◌, ◌<◌, ◌≡◌, refl, ◌⊎◌, inl, inr, arith, Bool, true, false, ◌&&◌, not,
  ◌==◌, if◌then◌else◌,
}
use polymorph_os.Prelude.{
  ltb, leb, lt→ltb, ℤ, pos, negsuc, ◌+ℤ◌, ltℤ, leℤ, minℤ, maxℤ, as_i32, as_usize,
}
use native.Mathlib.Decide.{dec_lt}
use polymorph_os.GpuDriver.Drawing.{as_i32_small, not_negative}

-- `q` is one of the `n` numbers from `lo` on.
abbrev pub within : ℕ → ℕ → ℕ → Bool
within lo n q = leb lo q && ltb q (lo + n)

pub within_step :
    (lo n q : ℕ) → within lo (suc n) q ≡ (if lo == q then true else within (lo + 1) n q)
within_step lo n q = ground arith

pub within_past : (lo n q : ℕ) → (lo == q) ≡ true → within (lo + 1) n q ≡ false
within_past lo n q h = ground arith

-- A number lies in the span of a length from an integer on.
abbrev pub covers : ℤ → ℤ → ℕ → Bool
covers start len q = leℤ start (pos q) && ltℤ (pos q) (start +ℤ len)

-- What is left of the span from `z` to `e` on an axis of some size: nothing, or some numbers.
pub record Clipped (z e : ℤ) (size : ℕ) : Type 0 where
  pub lo : ℕ
  pub count : ℕ
  pub kept : leℤ (minℤ e (as_i32 (pos size))) (maxℤ (pos 0) z) ≡ false
  pub is_lo : as_usize (maxℤ (pos 0) z) ≡ lo
  pub is_count : as_usize (minℤ e (as_i32 (pos size))) - as_usize (maxℤ (pos 0) z) ≡ count
  pub fits : lo + count ≤ size
  pub same : (q : ℕ) → q < size → (leℤ z (pos q) && ltℤ (pos q) e) ≡ within lo count q

pub record Gone (z e : ℤ) (size : ℕ) : Type 0 where
  pub empty : leℤ (minℤ e (as_i32 (pos size))) (maxℤ (pos 0) z) ≡ true
  pub none_in : (q : ℕ) → q < size → (leℤ z (pos q) && ltℤ (pos q) e) ≡ false

module _ (z : ℤ) (start k size : ℕ) (starts : maxℤ (pos 0) z ≡ pos start)
    (from_start : (q : ℕ) → leℤ z (pos q) ≡ not (ltb q start)) (small : size < 2 ^ 31) where
  clip_to :
      (m : ℕ)
      → minℤ (pos k) (as_i32 (pos size)) ≡ pos m
      → m ≤ k
      → m ≤ size
      → ((q : ℕ) → q < size → q < k → q < m)
      → Gone z (pos k) size ⊎ Clipped z (pos k) size
  clip_to m ends lk ls least = elim (dec_lt start m) [
    | yes lt ↦ inr (record {
      lo = start;
      count = m - start;
      kept = rw (ends, starts, lt→ltb start m lt);
      is_lo = rw starts (omega arith);
      is_count = rw (ends, starts) (omega arith);
      fits = omega arith;
      same = λ q hq. rw (from_start q) (inside q (least q hq));
    })
    | no past ↦ inl (record {
      empty = rw (ends, starts, not_below start m (omega arith));
      none_in = λ q hq. rw (from_start q) (outside q (omega arith) (least q hq));
    })
  ]
    where
      not_below : (a b : ℕ) → b ≤ a → ltb a b ≡ false
      not_below a b h = ground arith

      inside :
          (q : ℕ) → (q < k → q < m) → (not (ltb q start) && ltb q k) ≡ within start (m - start) q
      inside q least = ground arith

      outside : (q : ℕ) → m ≤ start → (q < k → q < m) → (not (ltb q start) && ltb q k) ≡ false
      outside q past least = ground arith

  clip : Gone z (pos k) size ⊎ Clipped z (pos k) size
  clip = elim (dec_lt size k) [
    | yes lt ↦
        clip_to size (rw (as_i32_small size small, lt→ltb size k lt)) (omega arith) (omega arith)
          (λ q hq hk. hq)
    | no ge ↦
        clip_to k (rw (as_i32_small size small, not_below size k (omega arith))) (omega arith)
          (omega arith) (λ q hq hk. hk)
  ]
    where
      not_below : (a b : ℕ) → b ≤ a → ltb a b ≡ false
      not_below a b h = ground arith

pub clip_axis : (z e : ℤ) (size : ℕ) → size < 2 ^ 31 → Gone z e size ⊎ Clipped z e size
clip_axis (pos a) (pos k) size small = clip (pos a) a k size (rw not_negative) (λ q. refl) small
clip_axis (negsuc a) (pos k) size small = clip (negsuc a) 0 k size refl (λ q. rw not_negative) small
clip_axis (pos a) (negsuc k) size small = inl (record {
  empty = rw (as_i32_small size small, not_negative);
  none_in = λ q hq. second (not (ltb q a));
})
  where
    second : (c : Bool) → (c && false) ≡ false
    second true = refl
    second false = refl
clip_axis (negsuc a) (negsuc k) size small =
    inl (record { empty = rw (as_i32_small size small); none_in = λ q hq. refl })
