-- ===== src/Health/Policy.antt =====
-- apps/api/src/deployments/health-endpoint.policy.ts: which endpoints may be probed.
pub mod Public
use docklane.Prelude.{
  ℕ, String, Text, codes, Bool, true, false, List, [], ◌∷◌, ◌&&◌, ◌||◌, not, ◌==◌, ◌!=◌, ℕ-eq,
  String-eq, Text-eq, leb, contains, to_lower, starts_with, if◌then◌else◌,
}
use mathlib.Core.List.{reverse}
use docklane.Net.{Url, Address, v4, v6, other}
use docklane.Exec.{error, M, Env, pure, raise, try, throw_if, ◌>>=◌, ◌>>◌, ask}

unfoldable pub is_private_address : Address → Bool
unfolding starts_with to_lower
is_private_address (v4 a b c d) =
    a == 0
    || a == 10
    || a == 127
    || a == 169 && b == 254
    || a == 172 && leb 16 b && leb b 31
    || a == 192 && b == 168
    || leb 224 a
is_private_address (v6 address) =
    let value = to_lower address in
    value == codes "::"
    || value == codes "::1"
    || starts_with value (codes "fe8")
    || starts_with value (codes "fe9")
    || starts_with value (codes "fea")
    || starts_with value (codes "feb")
    || starts_with value (codes "fc")
    || starts_with value (codes "fd")
    || starts_with value (codes "ff")
is_private_address other = true

unfoldable pub some_private : List Address → Bool
unfolding is_private_address
some_private [] = false
some_private (a ∷ as') = is_private_address a || some_private as'

-- s.endsWith(t)
unfoldable pub ends_with : Text → Text → Bool
unfolding starts_with
ends_with s t = starts_with (reverse s) (reverse t)

abbrev pub is_local_name : Text → Bool
is_local_name hostname =
    hostname == codes "localhost"
    || ends_with hostname (codes ".localhost")
    || ends_with hostname (codes ".local")

abbrev is_empty : List Address → Bool
is_empty [] = true
is_empty (a ∷ as') = false

abbrev pub allowlist_message : String
allowlist_message = "Private health endpoints must be explicitly allowlisted"

module _ (env : Env) where
  unfoldable pub assert_public : Url → M (Unit {0})
  assert_public url = do
    throw_if (url.protocol != "https:") (error "Public health endpoints must use HTTPS")
    throw_if (is_local_name (to_lower url.hostname)) (error allowlist_message)
    addresses ←
        try (ask env (λ n. env.lookup n (to_lower url.hostname)))
          (λ e. raise (error "Health endpoint hostname could not be resolved"))
    throw_if (is_empty addresses || some_private addresses) (error allowlist_message)

  unfoldable pub assert_allowed : Url → M (Unit {0})
  assert_allowed url = do
    throw_if (url.username != "" || url.password != "")
        (error "Health URL must not contain credentials")
    if contains env.private_hosts (to_lower url.host) then pure tt else assert_public url
