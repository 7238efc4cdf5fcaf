-- ===== src/StateStore/Codec.antt =====
-- The loops over hashes and scopes in state_store.cpp: what they write, and that it is read back.
use qiven_runtime.Base.{
  ℕ, ◌*◌, ◌^◌, ◌<◌, ◌≡◌, refl, sym, ap, ◌∙◌, arith, some, List, [], ◌∷◌, ◌++◌, Bytes, length,
  length-append, All, bytes_eq, nat_eq,
}
use mathlib.Core.List.{append_assoc, append-nil}
use qiven_runtime.Foundation.{Foundation, IsLawful, length-encode_le_u32, length-encode_le_u64}
use qiven_runtime.StateStore.{put_hashes, put_scopes, get_u32, get_u64, get_hashes, get_scopes}
use qiven_runtime.StateStore.Parts.{take-prefix, drop-prefix, prefix_there}

abbrev pub IsHash : Bytes → Type 0
IsHash h = length h ≡ 32

abbrev pub IsU64 : ℕ → Type 0
IsU64 s = s < 2 ^ 64

abbrev pub joined : List Bytes → Bytes
joined [] = []
joined (h ∷ rest) = h ++ joined rest

module _ {f : Foundation} (laws : IsLawful f) where
  abbrev pub coded : List ℕ → Bytes
  coded [] = []
  coded (s ∷ rest) = f.encode_le_u64 s ++ coded rest

  pub contents-put_hashes :
      (out : f.Builder) (hashes : List Bytes)
      → f.contents (put_hashes f out hashes) ≡ f.contents out ++ joined hashes
  contents-put_hashes out [] = sym (append-nil (f.contents out))
  contents-put_hashes out (h ∷ rest) =
      contents-put_hashes (f.append out h) rest
      ∙ ap (λ x. x ++ joined rest) (laws.contents-append out h)
      ∙ append_assoc (f.contents out) h (joined rest)

  pub contents-put_scopes :
      (out : f.Builder) (scopes : List ℕ)
      → f.contents (put_scopes f out scopes) ≡ f.contents out ++ coded scopes
  contents-put_scopes out [] = sym (append-nil (f.contents out))
  contents-put_scopes out (s ∷ rest) =
      contents-put_scopes (f.append_le_u64 out s) rest
      ∙ ap (λ x. x ++ coded rest) (laws.contents-append_le_u64 out s)
      ∙ append_assoc (f.contents out) (f.encode_le_u64 s) (coded rest)

  pub get_u32-encoded :
      (v : ℕ) (rest : Bytes) → v < 2 ^ 32 → get_u32 f (f.encode_le_u32 v ++ rest) ≡ some (v, rest)
  unfolding get_u32
  get_u32-encoded v rest small =
      let e = f.encode_le_u32 v in
      let sized = length-encode_le_u32 laws v in
      rw
        (
          prefix_there 4 e rest sized,
          take-prefix 4 e rest sized,
          drop-prefix 4 e rest sized,
          laws.decode_u32 v small,
        )
        refl

  get_u64-encoded :
      (v : ℕ) (rest : Bytes) → v < 2 ^ 64 → get_u64 f (f.encode_le_u64 v ++ rest) ≡ some (v, rest)
  unfolding get_u64
  get_u64-encoded v rest small =
      let e = f.encode_le_u64 v in
      let sized = length-encode_le_u64 laws v in
      rw
        (
          prefix_there 8 e rest sized,
          take-prefix 8 e rest sized,
          drop-prefix 8 e rest sized,
          laws.decode_u64 v small,
        )
        refl

  pub get_hashes-joined :
      (hashes : List Bytes) (rest : Bytes)
      → All IsHash hashes
      → get_hashes f (length hashes) (joined hashes ++ rest) ≡ some (hashes, rest)
  unfolding get_hashes
  get_hashes-joined [] rest h = refl
  get_hashes-joined (x ∷ xs) rest (h, hs) =
      rw
        (
          append_assoc x (joined xs) rest,
          prefix_there 32 x (joined xs ++ rest) h,
          take-prefix 32 x (joined xs ++ rest) h,
          drop-prefix 32 x (joined xs ++ rest) h,
          get_hashes-joined xs rest hs,
        )
        refl

  pub get_scopes-coded :
      (scopes : List ℕ) (rest : Bytes)
      → All IsU64 scopes
      → get_scopes f (length scopes) (coded scopes ++ rest) ≡ some (scopes, rest)
  unfolding get_scopes
  get_scopes-coded [] rest h = refl
  get_scopes-coded (x ∷ xs) rest (h, hs) =
      rw
        (
          append_assoc (f.encode_le_u64 x) (coded xs) rest,
          get_u64-encoded x (coded xs ++ rest) h,
          get_scopes-coded xs rest hs,
        )
        refl

  pub length-joined :
      (hashes : List Bytes) → All IsHash hashes → length (joined hashes) ≡ length hashes * 32
  length-joined [] h = refl
  length-joined (x ∷ xs) (h, hs) =
      omega (arith, length-append x (joined xs), length-joined xs hs, h)

  pub length-coded : (scopes : List ℕ) → length (coded scopes) ≡ length scopes * 8
  length-coded [] = refl
  length-coded (s ∷ ss) = omega (
    arith,
    length-append (f.encode_le_u64 s) (coded ss),
    length-coded ss,
    length-encode_le_u64 laws s,
  )
