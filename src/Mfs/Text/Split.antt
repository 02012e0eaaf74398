-- ===== src/Mfs/Text/Split.antt =====
-- `split` and `lines` on texts put together from parts that lack the separator.
use polymorph_os.Prelude.{ℕ, ◌≡◌, ◌≢◌, refl, ap, [], ◌∷◌, ◌++◌}
use polymorph_os.Prelude.{arith, Bytes}
use polymorph_os.Mfs.Text.{split, strip_cr}

-- No byte of the text is `c`.
abbrev pub Lacks : ℕ → Bytes → Type 0
Lacks c [] = Unit
Lacks c (x ∷ s) = (x ≢ c) × Lacks c s

pub Lacks-append : (c : ℕ) (s t : Bytes) → Lacks c s → Lacks c t → Lacks c (s ++ t)
Lacks-append c [] t h k = k
Lacks-append c (x ∷ s) t (h, hs) k = (h, Lacks-append c s t hs k)

pub split-append :
    (sep : ℕ) (s t : Bytes) → Lacks sep s → split sep (s ++ (sep ∷ t)) ≡ s ∷ split sep t
unfolding split
split-append sep [] t h = ground arith
split-append sep (x ∷ s) t (h, hs) = ground (arith, split-append sep s t hs)

pub split-lacking : (sep : ℕ) (s : Bytes) → Lacks sep s → split sep s ≡ s ∷ []
unfolding split
split-lacking sep [] h = refl
split-lacking sep (x ∷ s) (h, hs) = ground (arith, split-lacking sep s hs)

strip_cr-lacking : (s : Bytes) → Lacks b'\r' s → strip_cr s ≡ s
unfolding strip_cr
strip_cr-lacking [] h = refl
strip_cr-lacking (c ∷ []) (h, hs) = ground arith
strip_cr-lacking (c ∷ d ∷ s) (h, hs) = ap (◌∷◌ c) (strip_cr-lacking (d ∷ s) hs)

-- Only the end of a line matters for its carriage return.
pub strip_cr-append :
    (s : Bytes) (c : ℕ) (t : Bytes) → Lacks b'\r' (c ∷ t) → strip_cr (s ++ (c ∷ t)) ≡ s ++ (c ∷ t)
unfolding strip_cr
strip_cr-append [] c t h = strip_cr-lacking (c ∷ t) h
strip_cr-append (x ∷ []) c t h = ap (◌∷◌ x) (strip_cr-lacking (c ∷ t) h)
strip_cr-append (x ∷ y ∷ s) c t h = ap (◌∷◌ x) (strip_cr-append (y ∷ s) c t h)
