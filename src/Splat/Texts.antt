-- ===== src/Splat/Texts.antt =====
-- kernel/src/splat.rs: the text of the window in front, which the logger writes to. A text is the list of
-- its characters; `len` (`byte_len` here) and `drain` count the bytes of their UTF-8.
use polymorph_os.Prelude.{
  ℕ, zero, suc, ◌+◌, ◌-◌, ◌≤◌, ◌<◌, ◌≡◌, refl, ap, ◌∙◌, true, false, inl, inr, List, [], ◌∷◌, ◌++◌,
  arith,
}
use polymorph_os.Prelude.{Run, done, panic, ◌>>=◌, if◌then◌else◌, ltb, Bool-cases, length, drop}
use polymorph_os.Prelude.{length-append, length-drop}
use polymorph_os.Splat.{SemanticWindow}
use polymorph_os.Splat.Engine.{SplatEngine}

-- `c.len_utf8()`
abbrev pub len_utf8 : ℕ → ℕ
len_utf8 c = if ltb c 0x80 then 1 else if ltb c 0x800 then 2 else if ltb c 0x10000 then 3 else 4

-- `s.len()`
abbrev pub byte_len : List ℕ → ℕ
byte_len [] = 0
byte_len (c ∷ s) = len_utf8 c + byte_len s

-- `s.drain(0..n)`, which panics if the `n` bytes end inside a character, or go past the end.
unfoldable pub drain : List ℕ → ℕ → Run ⊥ (List ℕ)
drain s zero = done s
drain [] (suc n) = panic
drain (c ∷ s) (suc n) =
    let rest = drain s (suc n - len_utf8 c) in if ltb (suc n) (len_utf8 c) then panic else rest

-- The lines of `write_str` on the text of one window.
unfoldable pub log_text : List ℕ → List ℕ → Run ⊥ (List ℕ)
log_text text s =
    let text' = text ++ s in if ltb 2000 (byte_len text') then drain text' 500 else done text'

unfoldable pub write_last : List ℕ → List SemanticWindow → Run ⊥ (List SemanticWindow)
write_last s [] = done []
write_last s (win ∷ []) =
    log_text win.text_buffer s >>= λ text. done (record win { text_buffer = text } ∷ [])
write_last s (win ∷ next ∷ windows) =
    write_last s (next ∷ windows) >>= λ windows'. done (win ∷ windows')

-- `<SplatEngine as fmt::Write>::write_str`
unfoldable pub write_str : List ℕ → SplatEngine → Run ⊥ SplatEngine
write_str s engine =
    write_last s engine.windows >>= λ windows. done (record engine { windows = windows })

-- Every character is of ASCII.
abbrev pub AreAscii : List ℕ → Type 0
AreAscii [] = Unit
AreAscii (c ∷ s) = (c < 0x80) × AreAscii s

AreAscii-append : (a b : List ℕ) → AreAscii a → AreAscii b → AreAscii (a ++ b)
AreAscii-append [] b h k = k
AreAscii-append (c ∷ a) b (h, hs) k = (h, AreAscii-append a b hs k)

byte_len-ascii : (s : List ℕ) → AreAscii s → byte_len s ≡ length s
byte_len-ascii [] h = refl
byte_len-ascii (c ∷ s) (h, hs) = ground (arith, byte_len-ascii s hs)

drain-ascii : (s : List ℕ) (n : ℕ) → AreAscii s → n ≤ length s → drain s n ≡ done (drop n s)
unfolding drain
drain-ascii [] zero h k = refl
drain-ascii (c ∷ s) zero h k = refl
drain-ascii [] (suc n) h k = absurd (omega arith)
drain-ascii (c ∷ s) (suc n) (h, hs) k =
    let one : len_utf8 c ≡ 1 = ground arith in
    let less : suc n - 1 ≡ n = omega arith in
    let fits : ltb (suc n) 1 ≡ false = ground arith in
    rw (one, fits, less) (drain-ascii s n hs (omega arith))

AreAscii-drop : (n : ℕ) (s : List ℕ) → AreAscii s → AreAscii (drop n s)
AreAscii-drop zero [] h = tt
AreAscii-drop zero (c ∷ s) h = h
AreAscii-drop (suc n) [] h = tt
AreAscii-drop (suc n) (c ∷ s) (h, hs) = AreAscii-drop n s hs

-- The text that a window is left with.
abbrev pub logged : List ℕ → List ℕ → List ℕ
logged text s = if ltb 2000 (length (text ++ s)) then drop 500 (text ++ s) else text ++ s

log_text-ascii :
    (text s : List ℕ)
    → AreAscii text
    → AreAscii s
    → length text ≤ 2000
    → length s ≤ 500
    → (log_text text s ≡ done (logged text s))
      × AreAscii (logged text s)
      × (length (logged text s) ≤ 2000)
unfolding log_text
log_text-ascii text s h k small short =
    let both = AreAscii-append text s h k in
    let counted = byte_len-ascii (text ++ s) both in
    let total = length-append text s in
    elim (Bool-cases (ltb 2000 (length (text ++ s)))) [
      | inl over ↦
          let enough : 500 ≤ length (text ++ s) = too_long over in
          rw (counted, over)
            (
              drain-ascii (text ++ s) 500 both enough,
              AreAscii-drop 500 (text ++ s) both,
              omega (arith, length-drop 500 (text ++ s), total),
            )
      | inr fits ↦ rw (counted, fits) (refl, both, in_limit fits)
    ]
  where
    too_long : ltb 2000 (length (text ++ s)) ≡ true → 500 ≤ length (text ++ s)
    too_long over = ground arith

    in_limit : ltb 2000 (length (text ++ s)) ≡ false → length (text ++ s) ≤ 2000
    in_limit fits = ground arith

write_last_lem :
    (s : List ℕ) (windows : List SemanticWindow) (win : SemanticWindow) (text : List ℕ)
    → log_text win.text_buffer s ≡ done text
    → write_last s (windows ++ (win ∷ []))
      ≡ done (windows ++ (record win { text_buffer = text } ∷ []))
unfolding write_last
write_last_lem s [] win text h = rw h
write_last_lem s (w ∷ []) win text h = rw h
write_last_lem s (w ∷ next ∷ windows) win text h = rw (write_last_lem s (next ∷ windows) win text h)

-- An ASCII message of at most 500 characters is put behind the text of the window in front, and no other
-- window is touched; where the text comes to more than 2000 characters its first 500 are dropped, so
-- that an ASCII text of at most 2000 characters is one again.
pub write_str-ascii :
    (s : List ℕ) (engine : SplatEngine) (windows : List SemanticWindow) (win : SemanticWindow)
    → engine.windows ≡ windows ++ (win ∷ [])
    → AreAscii win.text_buffer
    → AreAscii s
    → length win.text_buffer ≤ 2000
    → length s ≤ 500
    → (write_str s engine
        ≡ done (record engine {
          windows = windows ++ (record win { text_buffer = logged win.text_buffer s } ∷ []);
        }))
      × AreAscii (logged win.text_buffer s)
      × (length (logged win.text_buffer s) ≤ 2000)
unfolding write_str
write_str-ascii s engine windows win last h k small short =
    let (wrote, ascii, bounded) = log_text-ascii win.text_buffer s h k small short in
    let ran = write_last_lem s windows win (logged win.text_buffer s) wrote in
    (
      ap (λ l. write_last s l >>= λ windows'. done (record engine { windows = windows' })) last
          ∙ ap (λ r. r >>= λ windows'. done (record engine { windows = windows' })) ran,
      ascii,
      bounded,
    )

-- A character that is not of ASCII and begins at the last of the dropped bytes: the drain panics.
drain-panics :
    (n : ℕ) (s : List ℕ) (c : ℕ) (rest : List ℕ)
    → AreAscii s
    → length s ≡ n
    → 0x80 ≤ c
    → drain (s ++ (c ∷ rest)) (suc n) ≡ panic
unfolding drain
drain-panics n [] c rest h e big = ground arith
drain-panics zero (d ∷ s) c rest h e big = absurd (omega arith)
drain-panics (suc n) (d ∷ s) c rest (h, hs) e big =
    let one : len_utf8 d ≡ 1 = ground arith in
    let less : suc (suc n) - 1 ≡ suc n = omega arith in
    let fits : ltb (suc (suc n)) 1 ≡ false = ground arith in
    rw (one, fits, less) (drain-panics n s c rest hs (omega arith) big)
