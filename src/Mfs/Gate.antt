-- ===== src/Mfs/Gate.antt =====
-- `verify_mdo_access` of kernel/src/mfs.rs, the check of a file's policy before its payload is touched.
use polymorph_os.Prelude.{ℕ, ◌+◌, ◌-◌, ◌≤◌, ◌<◌, ◌≡◌, ◌≢◌, sym, ap, true, false}
use polymorph_os.Prelude.{arith, take, drop, inl, inr, Bool-cases}
use polymorph_os.Prelude.{ltb, Run, done, fail, ◌>>=◌, map_err, slice, Bytes, bytes_eq, length}
use polymorph_os.Prelude.{
  from_le_bytes, bytes_eq_iff, ltb→lt, bind-done, map_err-done, Returns-bind, Returns-map_err,
  Returns, subst, ◌∙◌, leb,
}
use polymorph_os.MdoVm.{MdoContext, execute_mict_check}
use polymorph_os.MdoVm.Access.{execute_mict_check-Returns}
use polymorph_os.MdoVm.Rounds.{IsContext}
use polymorph_os.Mfs.{MfsError, not_mdo, bytecode_too_large, access_denied}
use polymorph_os.Mfs.{mdo_magic, check_header}

-- The header of a file, by the offsets of its fields.
abbrev pub code_len : Bytes → ℕ
code_len block = from_le_bytes (take 4 (drop 76 block))

abbrev pub code_of : Bytes → Bytes
code_of block = take (code_len block) (drop 128 block)

pub slice-in :
    {E : Type 0} (xs : Bytes) (lo hi : ℕ)
    → lo ≤ hi
    → hi ≤ length xs
    → slice {E = E} xs lo hi ≡ done (take (hi - lo) (drop lo xs))
slice-in xs lo hi le in_range =
    let a : leb lo hi ≡ true = ground arith in
    let b : leb hi (length xs) ≡ true = ground arith in rw (a, b)

fits-ltb : (n : ℕ) → n ≤ 3968 → ltb 3968 n ≡ false
fits-ltb n h = ground arith

-- A header with the magic number and a length that fits is decided by its policy.
check_header-policy :
    (block : Bytes) (ctx : MdoContext)
    → length block ≡ 4096
    → take 4 block ≡ mdo_magic
    → code_len block ≤ 3968
    → check_header block ctx ≡ (
        map_err access_denied (execute_mict_check (code_of block) ctx) >>= λ u.
        done (128 + code_len block))
unfolding check_header
check_header-policy block ctx whole right fits =
    let s1 = slice-in {E = MfsError} block 0 4 (omega arith) (omega (arith, whole)) in
    let s2 = slice-in {E = MfsError} block 76 80 (omega arith) (omega (arith, whole)) in
    let m = (bytes_eq_iff (take 4 block) mdo_magic).1 right in
    let l = fits-ltb (code_len block) fits in
    let e : 128 + code_len block - 128 ≡ code_len block = omega arith in
    let s3 =
      slice-in {E = MfsError} block 128 (128 + code_len block) (omega arith) (omega (arith, whole))
      ∙ ap (λ n. done (take n (drop 128 block))) e in
    rw (check_header, s1, m, s2, l, s3)

-- On a whole block: a wrong magic number, a length above 3968, and a policy that answers an error are
-- refused, each with its own error; a policy that grants yields the offset behind the bytecode.
pub check_header_lem :
    (block : Bytes) (ctx : MdoContext)
    → length block ≡ 4096
    → (take 4 block ≢ mdo_magic → check_header block ctx ≡ fail not_mdo)
      × (take 4 block ≡ mdo_magic
          → 3968 < code_len block
          → check_header block ctx ≡ fail bytecode_too_large)
      × (take 4 block ≡ mdo_magic
          → code_len block ≤ 3968
          → (code : ℕ) → execute_mict_check (code_of block) ctx ≡ fail code
          → check_header block ctx ≡ fail access_denied)
      × (take 4 block ≡ mdo_magic
          → code_len block ≤ 3968
          → execute_mict_check (code_of block) ctx ≡ done tt
          → check_header block ctx ≡ done (128 + code_len block))
unfolding check_header
check_header_lem block ctx whole =
    let s1 = slice-in {E = MfsError} block 0 4 (omega arith) (omega (arith, whole)) in
    let s2 = slice-in {E = MfsError} block 76 80 (omega arith) (omega (arith, whole)) in
    (
      λ wrong.
          let m : bytes_eq (take 4 block) mdo_magic ≡ false =
            ground (arith, bytes_eq_iff (take 4 block) mdo_magic) in
          rw (check_header, s1, m),
      λ right large.
          let m = (bytes_eq_iff (take 4 block) mdo_magic).1 right in
          let l : ltb 3968 (code_len block) ≡ true = ground arith in
          rw (check_header, s1, m, s2, l),
      λ right fits code refused. rw (refused) at (check_header-policy block ctx whole right fits),
      λ right fits granted. rw (granted) at (check_header-policy block ctx whole right fits),
    )

-- Only these four answers grant: a header that is let through has the magic number, a length that
-- fits, and a policy that grants.
pub check_header-granted :
    (block : Bytes) (ctx : MdoContext) (n : ℕ)
    → length block ≡ 4096
    → check_header block ctx ≡ done n
    → (take 4 block ≡ mdo_magic)
      × (code_len block ≤ 3968)
      × (execute_mict_check (code_of block) ctx ≡ done tt)
      × (n ≡ 128 + code_len block)
check_header-granted block ctx n whole h =
    let (bad_magic, too_large, refused, granted) = check_header_lem block ctx whole in
    elim (Bool-cases (bytes_eq (take 4 block) mdo_magic)) [
      | inr w ↦
          let wrong : take 4 block ≢ mdo_magic =
            λ e. let t = (bytes_eq_iff (take 4 block) mdo_magic).1 e in cc in
          let r = bad_magic wrong in absurd cc
      | inl y ↦
          let right = (bytes_eq_iff (take 4 block) mdo_magic).0 y in
          elim (Bool-cases (ltb 3968 (code_len block))) [
            | inl l ↦ let r = too_large right (ltb→lt 3968 (code_len block) l) in absurd cc
            | inr l ↦
                let fits = ltb-fits (code_len block) l in
                let ran = policy_ran right fits in
                (right, fits, ran, done-value (sym (granted right fits ran) ∙ h))
          ]
    ]
  where
    done-value : {a b : ℕ} → ◌≡◌ {A = Run MfsError ℕ} (done a) (done b) → b ≡ a
    done-value e = cc

    ltb-fits : (m : ℕ) → ltb 3968 m ≡ false → m ≤ 3968
    ltb-fits m l = ground arith

    policy_ran :
        take 4 block ≡ mdo_magic
        → code_len block ≤ 3968
        → execute_mict_check (code_of block) ctx ≡ done tt
    policy_ran right fits =
        let (u, mapped, _) =
          bind-done (map_err access_denied (execute_mict_check (code_of block) ctx))
            (λ u. done (128 + code_len block)) n
            (sym (check_header-policy block ctx whole right fits) ∙ h) in
        map_err-done access_denied (execute_mict_check (code_of block) ctx) u mapped

pub check_header-Returns :
    (block : Bytes) (ctx : MdoContext)
    → length block ≡ 4096
    → IsContext ctx
    → Returns (check_header block ctx)
check_header-Returns block ctx whole c =
    let (bad_magic, too_large, _, _) = check_header_lem block ctx whole in
    elim (Bool-cases (bytes_eq (take 4 block) mdo_magic)) [
      | inr w ↦
          let wrong : take 4 block ≢ mdo_magic =
            λ e. let t = (bytes_eq_iff (take 4 block) mdo_magic).1 e in cc in
          subst Returns (sym (bad_magic wrong)) tt
      | inl y ↦
          let right = (bytes_eq_iff (take 4 block) mdo_magic).0 y in
          elim (Bool-cases (ltb 3968 (code_len block))) [
            | inl l ↦ subst Returns (sym (too_large right (ltb→lt 3968 (code_len block) l))) tt
            | inr l ↦
                subst Returns
                  (sym (check_header-policy block ctx whole right (ltb-fits (code_len block) l)))
                  (Returns-bind (map_err access_denied (execute_mict_check (code_of block) ctx))
                    (λ u. done (128 + code_len block))
                    (Returns-map_err access_denied (execute_mict_check (code_of block) ctx)
                      (execute_mict_check-Returns (code_of block) ctx c))
                    (λ u e. tt))
          ]
    ]
  where
    ltb-fits : (m : ℕ) → ltb 3968 m ≡ false → m ≤ 3968
    ltb-fits m l = ground arith
