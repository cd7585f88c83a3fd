-- ===== src/Deployment/Image/Digest.antt =====
-- apps/api/src/deployments/deployment.service.ts: the digest of a reference that dockerImageReference
-- has made is found again by digestFromImage and by imageContainsDigest.
use docklane.Prelude.{
  ℕ, ◌≡◌, ◌≢◌, refl, ap, ◌∙◌, Text, true, false, [], ◌∷◌, ◌++◌, some, ℕ-eq, Text-eq, nat_eq_iff,
  length, length-append, to_lower, to_lower_idem, arith, Bool-cases, inl, inr,
}
use docklane.Deployment.Image.{
  is_digest_tail, digest_from_image, without_scheme, without_slash, docker_image_reference,
}

is_digest_tail-length : (s : Text) → is_digest_tail s ≡ true → length s ≡ 72
unfolding is_digest_tail
is_digest_tail-length s h = ground (arith, nat_eq_iff (length s) 72)

-- Only the last 72 code units can match.
longer-is_digest_tail : (s : Text) → length s ≢ 72 → is_digest_tail s ≡ false
longer-is_digest_tail s n = elim (Bool-cases (is_digest_tail s)) [
  | inl e ↦ absurd (n (is_digest_tail-length s e))
  | inr e ↦ e
]

digest_from_image-append :
    (p : Text) (c : ℕ) (s : Text)
    → is_digest_tail (c ∷ s) ≡ true
    → digest_from_image (p ++ c ∷ s) ≡ some (to_lower s)
unfolding digest_from_image
digest_from_image-append [] c s h = rw h refl
digest_from_image-append (x ∷ p) c s h =
    let n = is_digest_tail-length (c ∷ s) h in
    let m = length-append p (c ∷ s) in
    ground (
      arith,
      longer-is_digest_tail (x ∷ p ++ c ∷ s) (λ e. omega (arith, n, m, e)),
      digest_from_image-append p c s h,
    )

-- A reference that is made of any repository and a digest of 64 hexadecimal digits gives the digest
-- back, in lower case.
pub digest_from_image-docker_image_reference :
    (repository digest : Text)
    → is_digest_tail (b'@' ∷ to_lower digest) ≡ true
    → digest_from_image (docker_image_reference repository digest) ≡ some (to_lower digest)
unfolding docker_image_reference
digest_from_image-docker_image_reference repository digest h =
    digest_from_image-append (without_slash (without_scheme repository)) b'@' (to_lower digest) h
    ∙ ap some (to_lower_idem digest)
