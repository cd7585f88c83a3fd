-- ===== src/Health/Policy/Public.antt =====
-- apps/api/src/deployments/health-endpoint.policy.ts: what an endpoint that is let through is.
use docklane.Prelude.{
  ℕ, ◌≡◌, ◌≢◌, ◌≤◌, ◌<◌, ◌⊎◌, inl, inr, refl, ap, ◌∙◌, ◌||◌, ◌==◌, Bool, true, false, List, [], ◌∷◌,
  ◌++◌, String, Text, codes, starts_with, starts_with_iff, text_eq_iff, nat_eq_iff, String-eq,
  Text-eq, contains, to_lower, All, eq_iff, arith,
}
use mathlib.Core.List.{reverse, reverse-append}
use docklane.Net.{Url, Address, v4, v6, other}
use docklane.Agent.Errors.{yields}
use docklane.Exec.{ok, World, Env}
use docklane.Exec.Returns.{
  Returns, Returns-pure, Returns-if, Returns-bind, Returns-map, Returns-of, Yields-ask,
  Yields-throw_if, Yields-try-raise,
}
use docklane.Health.Policy.{
  is_private_address, some_private, is_local_name, ends_with, is_empty, assert_public,
  assert_allowed,
}

-- The IPv6 prefixes that are refused.
abbrev refused_prefixes : List String
refused_prefixes = "fe8" ∷ "fe9" ∷ "fea" ∷ "feb" ∷ "fc" ∷ "fd" ∷ "ff" ∷ []

-- The addresses that an endpoint may have: an IPv4 address outside of 0/8, 10/8, 127/8, 169.254/16,
-- 172.16/12, 192.168/16 and 224/3, or an IPv6 address that is written neither as :: nor as ::1 and
-- that does not begin with fe8 to feb, fc, fd or ff. An IPv4 address inside of an IPv6 one is not
-- told apart.
abbrev pub IsAdmitted : Address → Type 0
IsAdmitted (v4 a b c d) =
    (a ≢ 0)
    × (a ≢ 10)
    × (a ≢ 127)
    × ¬ ((a ≡ 169) × (b ≡ 254))
    × ¬ ((a ≡ 172) × (16 ≤ b) × (b ≤ 31))
    × ¬ ((a ≡ 192) × (b ≡ 168))
    × (a < 224)
IsAdmitted (v6 address) =
    (to_lower address ≢ codes "::")
    × (to_lower address ≢ codes "::1")
    × All (λ p. ¬ ((rest : Text) × (to_lower address ≡ codes p ++ rest))) refused_prefixes
IsAdmitted other = ⊥

unprefixed : (s t : Text) → starts_with s t ≡ false → ¬ ((rest : Text) × (s ≡ t ++ rest))
unprefixed s t h e = let hit = (starts_with_iff s t).1 e in cc

or_false : (a b : Bool) → (a || b) ≡ false → (a ≡ false) × (b ≡ false)
or_false true b h = cc
or_false false b h = (refl, h)

none_of_nine :
    (a b c d e f g h i : Bool)
    → (a || b || c || d || e || f || g || h || i) ≡ false
    → (a ≡ false)
      × (b ≡ false)
      × (c ≡ false)
      × (d ≡ false)
      × (e ≡ false)
      × (f ≡ false)
      × (g ≡ false)
      × (h ≡ false)
      × (i ≡ false)
none_of_nine a b c d e f g h i p =
    let (p1, i0) = or_false _ i p in
    let (p2, h0) = or_false _ h p1 in
    let (p3, g0) = or_false _ g p2 in
    let (p4, f0) = or_false _ f p3 in
    let (p5, e0) = or_false _ e p4 in
    let (p6, d0) = or_false _ d p5 in
    let (p7, c0) = or_false _ c p6 in
    let (a0, b0) = or_false a b p7 in (a0, b0, c0, d0, e0, f0, g0, h0, i0)

unequal : (s t : Text) → (s == t) ≡ false → s ≢ t
unequal s t h e = let hit = (text_eq_iff s t).1 e in cc

v4-IsAdmitted : (a b c d : ℕ) → is_private_address (v4 a b c d) ≡ false → IsAdmitted (v4 a b c d)
unfolding is_private_address
v4-IsAdmitted a b c d h = (
  λ e. let q = (nat_eq_iff a 0).1 e in ground arith,
  λ e. let q = (nat_eq_iff a 10).1 e in ground arith,
  λ e. let q = (nat_eq_iff a 127).1 e in ground arith,
  λ e. let q = (nat_eq_iff a 169).1 e.0 in let r = (nat_eq_iff b 254).1 e.1 in ground arith,
  λ e. let q = (nat_eq_iff a 172).1 e.0 in let r = e.1 in let s = e.2 in ground arith,
  λ e. let q = (nat_eq_iff a 192).1 e.0 in let r = (nat_eq_iff b 168).1 e.1 in ground arith,
  ground arith,
)

v6-IsAdmitted : (address : Text) → is_private_address (v6 address) ≡ false → IsAdmitted (v6 address)
unfolding is_private_address
v6-IsAdmitted address h =
    let value = to_lower address in
    let no = none_of_nine _ _ _ _ _ _ _ _ _ h in
    (
      unequal value (codes "::") no.0,
      unequal value (codes "::1") no.1,
      (
        unprefixed value (codes "fe8") no.2,
        (
          unprefixed value (codes "fe9") no.3,
          (
            unprefixed value (codes "fea") no.4,
            (
              unprefixed value (codes "feb") no.5,
              (
                unprefixed value (codes "fc") no.6,
                (unprefixed value (codes "fd") no.7, (unprefixed value (codes "ff") no.8, tt)),
              ),
            ),
          ),
        ),
      ),
    )

refused_other : is_private_address other ≡ false → ⊥
unfolding is_private_address
refused_other h = cc

admitted : (a : Address) → is_private_address a ≡ false → IsAdmitted a
admitted (v4 a b c d) h = v4-IsAdmitted a b c d h
admitted (v6 address) h = v6-IsAdmitted address h
admitted other h = refused_other h

-- localhost, and the names under localhost and local.
abbrev IsLocalName : Text → Type 0
IsLocalName name =
    (name ≡ codes "localhost")
    ⊎ (((host : Text) × (name ≡ host ++ codes ".localhost"))
        ⊎ ((host : Text) × (name ≡ host ++ codes ".local")))

unsuffixed : (s t : Text) → ends_with s t ≡ false → ¬ ((host : Text) × (s ≡ host ++ t))
unfolding ends_with
unsuffixed s t h (host, e) =
    let hit =
      (starts_with_iff (reverse s) (reverse t)).1
        (reverse host, ap reverse e ∙ reverse-append host t) in
    cc

no_local_name : (name : Text) → is_local_name name ≡ false → ¬ IsLocalName name
no_local_name name h (inl e) = let q = (text_eq_iff name (codes "localhost")).1 e in ground arith
no_local_name name h (inr (inl e)) = unsuffixed name (codes ".localhost") (ground arith) e
no_local_name name h (inr (inr e)) = unsuffixed name (codes ".local") (ground arith) e

-- An endpoint that is not listed: its protocol is HTTPS, its name no local one, and the resolver has
-- answered with addresses, each of them admitted.
pub record Public (env : Env) (url : Url) : Type 0 where
  pub protocol : url.protocol ≡ "https:"
  pub named : ¬ IsLocalName (to_lower url.hostname)
  pub call : ℕ
  pub addresses : List Address
  pub resolved : env.lookup call (to_lower url.hostname) ≡ yields addresses
  pub nonempty : addresses ≢ []
  pub each : All IsAdmitted addresses

abbrev pub Permitted : Env → Url → Type 0
Permitted env url = (contains env.private_hosts (to_lower url.host) ≡ true) ⊎ Public env url

none_private : (l : List Address) → some_private l ≡ false → All IsAdmitted l
unfolding some_private
none_private [] h = tt
none_private (a ∷ rest) h = (admitted a (ground arith), none_private rest (ground arith))

some_address : (l : List Address) → is_empty l ≡ false → l ≢ []
some_address [] h = cc
some_address (a ∷ l) h = λ e. cc

module _ (env : Env) (url : Url) where
  assert_public-Returns : Returns (λ _. Public env url) (assert_public env url)
  unfolding assert_public
  assert_public-Returns = Returns-bind _ _ λ _ https. Returns-bind _ _ λ _ named.
      Returns-bind _ _ λ addresses resolved. Returns-of λ _ checked.
        let (n, answer) = Yields-ask env _ addresses (Yields-try-raise _ _ addresses resolved) in
        let c = Yields-throw_if _ _ _ checked in
        record {
          protocol = ground (arith, Yields-throw_if _ _ _ https, eq_iff url.protocol "https:");
          named = no_local_name _ (Yields-throw_if _ _ _ named);
          call = n;
          addresses = addresses;
          resolved = answer;
          nonempty = some_address addresses (ground (arith, c));
          each = none_private addresses (ground (arith, c));
        }

-- An endpoint that is let through is listed by the operator of the control plane, or it is reached
-- by HTTPS, under neither localhost nor local, by a name that the resolver has answered with
-- addresses, none of them an IPv4 address of 0/8, 10/8, 127/8, 169.254/16, 172.16/12, 192.168/16 or
-- 224/3, nor an IPv6 address ::, ::1 or one that begins with fe8 to feb, fc, fd or ff.
pub assert_allowed-Permitted :
    (env : Env) (url : Url) (w : World) → (assert_allowed env url w).0 ≡ ok tt → Permitted env url
unfolding assert_allowed
assert_allowed-Permitted env url w =
    (Returns-bind {R = λ _. Permitted env url} _ _ λ _ _.
        Returns-if (contains env.private_hosts (to_lower url.host)) _ _
          (λ listed. Returns-pure tt (inl listed))
          (λ _. Returns-map _ (λ _. inr) (assert_public-Returns env url))).at
      w tt
