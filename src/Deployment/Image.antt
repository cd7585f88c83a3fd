-- ===== src/Deployment/Image.antt =====
-- apps/api/src/deployments/deployment.service.ts: image references and their digests.
pub mod Digest
use docklane.Prelude.{
  ℕ, zero, suc, ◌-◌, Text, codes, Bool, true, false, List, [], ◌∷◌, ◌++◌, Option, none, some, ◌&&◌,
  ◌||◌, ◌==◌, ℕ-eq, Text-eq, leb, length, take, drop, every, to_lower, starts_with, includes,
  if◌then◌else◌,
}

-- [A-Fa-f0-9]
abbrev pub is_hex : ℕ → Bool
is_hex c = leb b'A' c && leb c b'F' || leb b'a' c && leb c b'f' || leb b'0' c && leb c b'9'

abbrev pub digest_mark : Text
digest_mark = codes "@sha256:"

-- Whether the whole of `s` is matched by @sha256:[A-Fa-f0-9]{64}
unfoldable pub is_digest_tail : Text → Bool
unfolding starts_with every
is_digest_tail s = starts_with s digest_mark && length s == 72 && every is_hex (drop 8 s)

-- image.match(/@(sha256:[A-Fa-f0-9]{64})$/): the first place from which the rest matches. The group
-- is the match without its `@`.
unfoldable pub digest_from_image : Text → Option Text
unfolding is_digest_tail to_lower
digest_from_image [] = none
digest_from_image (c ∷ s) =
    if is_digest_tail (c ∷ s) then some (to_lower s) else digest_from_image s

unfoldable pub image_contains_digest : Option Text → Text → Bool
unfolding includes to_lower
image_contains_digest none digest = false
image_contains_digest (some []) digest = false
image_contains_digest (some (c ∷ s)) digest = includes (to_lower (c ∷ s)) (b'@' ∷ to_lower digest)

-- repository.replace(/^https?:\/\//i, '')
unfoldable pub without_scheme : Text → Text
unfolding starts_with to_lower
without_scheme s =
    if starts_with (to_lower s) (codes "https://")
    then drop 8 s
    else if starts_with (to_lower s) (codes "http://")
    then drop 7 s
    else s

-- .replace(/\/$/, '')
unfoldable pub without_slash : Text → Text
without_slash [] = []
without_slash (c ∷ []) = if c == b'/' then [] else c ∷ []
without_slash (c ∷ d ∷ s) = c ∷ without_slash (d ∷ s)

unfoldable pub docker_image_reference : Text → Text → Text
unfolding without_scheme without_slash
docker_image_reference repository digest =
    without_slash (without_scheme repository) ++ b'@' ∷ to_lower digest
