-- ===== src/Api/Resolution.antt =====
-- How a per-status policy of pkg/api/status_ttl.go resolves a status.
use bouine.Prelude.{
  ℕ, ◌/◌, ◌≡◌, refl, Bool, true, false, List, [], ◌∷◌, Option, none, some, arith, ◌==◌,
  if◌then◌else◌,
}
use mathlib.Core.Option.{get_or}
use bouine.Prelude.Bytes.{Bytes}
use bouine.Prelude.Int.{ℤ, pos}
use bouine.Api.StatusTtl.{
  Result, ok, err, ◌>>=◌, parse_status_ttl_key, find_ttl, Policy, StatusTtl, add_exact, add_class,
  add_entry, add_key, add_keys, new_status_ttl_map, policy_ttl, ttl_of,
}

-- What a configured key covers.
pub data Scope : Type 0 where
  one_status : ℕ → Scope
  one_class : ℕ → Scope
  nothing : Scope

abbrev pub scope_of_range : Result (ℕ × ℕ) → Scope
scope_of_range (err e) = nothing
scope_of_range (ok (lo, hi)) = if lo == hi then one_status lo else one_class (lo / 100)

abbrev pub scope_of : Bytes → Scope
scope_of key = scope_of_range (parse_status_ttl_key key)

abbrev pub is_status : ℕ → Scope → Bool
is_status n (one_status m) = m == n
is_status n _ = false

abbrev pub is_class : ℕ → Scope → Bool
is_class n (one_class m) = m == n
is_class n _ = false

-- The first configured entry whose scope passes a test.
abbrev pub configured : (Scope → Bool) → List (Bytes × ℤ) → Option ℤ
configured p [] = none
configured p ((key, ttl) ∷ es) = if p (scope_of key) then some ttl else configured p es

abbrev pub or_else : Option ℤ → Option ℤ → Option ℤ
or_else none b = b
or_else (some a) b = some a

or_else-none : (o : Option ℤ) → or_else o none ≡ o
or_else-none none = refl
or_else-none (some a) = refl

add_key_lookup :
    (p : Policy) (key : Bytes) (ttl : ℤ) (q : Policy) (n : ℕ)
    → add_key p (key, ttl) ≡ ok q
    → (find_ttl n q.exact ≡ (if is_status n (scope_of key) then some ttl else find_ttl n p.exact))
      × (find_ttl n q.classes
          ≡ (if is_class n (scope_of key) then some ttl else find_ttl n p.classes))
      × (is_status n (scope_of key) ≡ true → find_ttl n p.exact ≡ none)
      × (is_class n (scope_of key) ≡ true → find_ttl n p.classes ≡ none)
unfolding add_key add_entry add_exact add_class find_ttl
add_key_lookup p key ttl q n h = ground arith

-- Two calls in a row succeed on a policy that the first of them returned.
policy_between :
    {B : Type 0} {made : B} (next : Policy → Result B) (first : Result Policy)
    → (first >>= next) ≡ ok made
    → (p : Policy) × (next p ≡ ok made) × (first ≡ ok p)
policy_between next (err e) h = cc
policy_between next (ok p) h = (p, h, refl)

abbrev no_policy : Policy
no_policy = record { exact = []; classes = [] }

find_nothing : (n : ℕ) → find_ttl n [] ≡ none
unfolding find_ttl
find_nothing n = refl

-- What the configured entries come to, behind what the policy holds already.
add_keys_lookup :
    (es : List (Bytes × ℤ)) (p q : Policy) (n : ℕ)
    → add_keys p es ≡ ok q
    → (find_ttl n q.exact ≡ or_else (find_ttl n p.exact) (configured (is_status n) es))
      × (find_ttl n q.classes ≡ or_else (find_ttl n p.classes) (configured (is_class n) es))
unfolding add_keys
add_keys_lookup [] p q n h =
    ground (arith, h, or_else-none (find_ttl n p.exact), or_else-none (find_ttl n p.classes))
add_keys_lookup ((key, ttl) ∷ es) p q n h =
    let (r, rest, added) = policy_between (λ r. add_keys r es) (add_key p (key, ttl)) h in
    ground (arith, add_key_lookup p key ttl r n added, add_keys_lookup es r q n rest)

-- A policy that is built from configured entries gives a status the TTL of the entry for exactly that
-- status, if there is one, else that of the entry for its class, and else 0; the order of the entries
-- does not matter, since a second entry for one status or one class is refused.
pub ttl_of-configured :
    (es : List (Bytes × ℤ)) (s : StatusTtl) (status : ℕ)
    → new_status_ttl_map es ≡ ok s
    → ttl_of s status
      ≡ get_or
          (or_else (configured (is_status status) es) (configured (is_class (status / 100)) es))
          (pos 0)
unfolding new_status_ttl_map ttl_of policy_ttl
ttl_of-configured [] s status h = ground arith
ttl_of-configured (e ∷ es) s status h =
    let (p, made, added) = policy_between (λ p. ok (some p)) (add_keys no_policy (e ∷ es)) h in
    ground (
      arith,
      find_nothing status,
      find_nothing (status / 100),
      add_keys_lookup (e ∷ es) no_policy p status added,
      add_keys_lookup (e ∷ es) no_policy p (status / 100) added,
    )
