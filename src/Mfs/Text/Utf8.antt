-- ===== src/Mfs/Text/Utf8.antt =====
-- `str::from_utf8` on texts put together.
use polymorph_os.Prelude.{ℕ, zero, suc, ◌<◌, ◌≡◌, refl, true, [], ◌∷◌, ◌++◌}
use polymorph_os.Prelude.{arith, inl, inr, Bytes, Option-cases}
use polymorph_os.Mfs.Text.{leading, utf8_step, utf8_from, is_utf8}

utf8_from-due : (s : Bytes) (lo hi : ℕ) → utf8_from s 0 lo hi ≡ is_utf8 s
unfolding utf8_from utf8_step
utf8_from-due [] lo hi = refl
utf8_from-due (c ∷ s) lo hi = refl

-- Behind a valid text the check goes on as from the start.
pub utf8_from-append :
    (s t : Bytes) (n lo hi : ℕ)
    → utf8_from s n lo hi ≡ true
    → utf8_from (s ++ t) n lo hi ≡ is_utf8 t
unfolding utf8_from
utf8_from-append [] t zero lo hi h = utf8_from-due t lo hi
utf8_from-append [] t (suc n) lo hi h = absurd (ground arith)
utf8_from-append (c ∷ s) t n lo hi h = elim (Option-cases (utf8_step n lo hi c)) [
  | inl e ↦ let h' = rw e at h in absurd cc
  | inr ((m, lo', hi'), e) ↦ rw e (utf8_from-append s t m lo' hi' (rw e at h))
]

pub is_utf8-ascii : (c : ℕ) (s : Bytes) → c < 128 → is_utf8 (c ∷ s) ≡ is_utf8 s
unfolding utf8_from utf8_step leading
is_utf8-ascii c s h = ground arith
