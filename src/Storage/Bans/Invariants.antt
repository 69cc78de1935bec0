-- ===== src/Storage/Bans/Invariants.antt =====
-- internal/storage/bans.go: register keeps the index and the views in step with the list.
use bouine.Prelude.{
  ℕ, ◌≤◌, ◌<◌, ◌≡◌, refl, sym, ap, ◌∙◌, inl, inr, Bool, true, false, List, [], ◌∷◌, ◌++◌, map, none,
  some, length, length-append, arith, if◌then◌else◌, Option-cases,
}
use mathlib.Core.Path.{subst}
use bouine.Prelude.Bytes.{Bytes}
use bouine.Prelude.Int.{ℤ}
use bouine.Api.Object.{Object, is_zero_time}
use bouine.Cluster.Events.{BanExpr}
use bouine.Storage.Sieve.Chains.{NotIn, NotIn-append}
use bouine.Storage.Bans.{BanPattern, pattern_of, ActiveBan, exempt_nanos_of}
use bouine.Storage.Bans.BanList.{
  BanListState, cap_or_default, find_pattern, pop_expired, evict_to_cap, set_ban, refresh_ban,
  refresh_known, new_ban, append_ban, register,
}
use bouine.Storage.Bans.Registrations.{
  index_entry, IsBanList, Shrinks, pop_expired-Shrinks, evict_to_cap-Shrinks, evict_to_cap-length,
  same_cap,
}
use bouine.Storage.Bans.Views.{
  set_ban_self, refresh_known-IsBanList, append_ban-IsBanList, find_none-behind, find_last,
}
use bouine.Storage.Bans.{ban_predicate, after}
use bouine.Storage.Bans.Lookups.{ban_hits}

-- The ban of a pattern is in the index, with the given time as its creation and exemption.
unfoldable pub IsRegistered : BanExpr → ℤ → BanListState → Type 0
IsRegistered expr created b =
    (a : ℕ) × (find_pattern (pattern_of expr) b.index ≡ some a)
    × ((b.bans a).created ≡ created)
    × ((b.bans a).exempt_nanos ≡ exempt_nanos_of created)

unfoldable pub IsWithinCap : BanListState → Type 0
IsWithinCap b = length b.list ≤ cap_or_default b

Registers : BanExpr → ℤ → BanListState → Type 0
Registers expr created b = IsBanList b × IsWithinCap b × IsRegistered expr created b

refresh_known-Registers :
    (expr : BanExpr) (created : ℤ) (a : ℕ) (b : BanListState)
    → IsBanList b
    → IsWithinCap b
    → find_pattern (pattern_of expr) b.index ≡ some a
    → Registers expr created (refresh_known a created b)
unfolding Registers IsRegistered IsWithinCap refresh_known refresh_ban cap_or_default
refresh_known-Registers expr created a b v cap f =
    let self = set_ban_self b.bans a (refresh_ban created (b.bans a)) in
    (
      refresh_known-IsBanList a created b v,
      cap,
      (a, f, ap (λ t. t.created) self, ap (λ t. t.exempt_nanos) self),
    )

appended :
    (hash : Bytes → ℕ) (a : ℕ) (ban : ActiveBan) (b : BanListState)
    → ((append_ban hash a ban b).list ≡ b.list ++ (a ∷ []))
      × ((append_ban hash a ban b).index ≡ b.index ++ ((ban.pattern, a) ∷ []))
      × ((append_ban hash a ban b).bans ≡ set_ban a ban b.bans)
      × ((append_ban hash a ban b).capacity ≡ b.capacity)
unfolding append_ban
appended hash a ban b = branch ban.surrogate _ _ refl refl refl refl refl refl refl refl
  where
    branch :
        (c : Bool) (x y : BanListState)
        → x.list ≡ b.list ++ (a ∷ [])
        → y.list ≡ b.list ++ (a ∷ [])
        → x.index ≡ b.index ++ ((ban.pattern, a) ∷ [])
        → y.index ≡ b.index ++ ((ban.pattern, a) ∷ [])
        → x.bans ≡ set_ban a ban b.bans
        → y.bans ≡ set_ban a ban b.bans
        → x.capacity ≡ b.capacity
        → y.capacity ≡ b.capacity
        → ((if c then x else y).list ≡ b.list ++ (a ∷ []))
          × ((if c then x else y).index ≡ b.index ++ ((ban.pattern, a) ∷ []))
          × ((if c then x else y).bans ≡ set_ban a ban b.bans)
          × ((if c then x else y).capacity ≡ b.capacity)
    branch true x y l l' i i' h h' k k' = (l, i, h, k)
    branch false x y l l' i i' h h' k k' = (l', i', h', k')

append-Registers :
    (hash : Bytes → ℕ) (expr : BanExpr) (pred : Object → Bool) (created : ℤ) (a : ℕ)
    (b : BanListState)
    → IsBanList b
    → length b.list < cap_or_default b
    → NotIn a b.list
    → find_pattern (pattern_of expr) b.index ≡ none
    → Registers expr created (append_ban hash a (new_ban (pattern_of expr) pred created) b)
unfolding Registers IsRegistered IsWithinCap new_ban
append-Registers hash expr pred created a b v cap new f =
    let ban = new_ban (pattern_of expr) pred created in
    let c = append_ban hash a ban b in
    let (list, index, bans, capacity) = appended hash a ban b in
    let self : c.bans a ≡ ban = ap (λ h. h a) bans ∙ set_ban_self b.bans a ban in
    (
      append_ban-IsBanList hash a ban b new v,
      omega (
        arith,
        cap,
        ap (λ (t : List ℕ). length t) list,
        length-append b.list (a ∷ []),
        same_cap b c capacity,
      ),
      (
        a,
        ap (λ t. find_pattern (pattern_of expr) t) index ∙ find_last (pattern_of expr) b.index a f,
        ap (λ t. t.created) self,
        ap (λ t. t.exempt_nanos) self,
      ),
    )

Shrinks-length : (b c : BanListState) → Shrinks b c → length c.list ≤ length b.list
Shrinks-length b c s =
    omega (arith, length-append s.gone c.list, ap (λ (t : List ℕ). length t) s.list)

unknown-Shrinks :
    (p : BanPattern) (b c : BanListState)
    → IsBanList b
    → Shrinks b c
    → find_pattern p b.index ≡ none
    → find_pattern p c.index ≡ none
unknown-Shrinks p b c v s f =
    let before : find_pattern p (map (index_entry b.bans) (s.gone ++ c.list)) ≡ none =
      subst (λ t. find_pattern p (map (index_entry b.bans) t) ≡ none) s.list
        (subst (λ t. find_pattern p t ≡ none) v.index f) in
    subst (λ t. find_pattern p t ≡ none) (sym s.valid.index)
      (subst (λ h. find_pattern p (map (index_entry h) c.list) ≡ none) (sym s.bans)
        (find_none-behind p b.bans s.gone c.list before))

-- The two ways of register.
pub register_known :
    (hash : Bytes → ℕ) (now : ℤ) (fresh : ℕ) (expr : BanExpr) (pred : Object → Bool) (created : ℤ)
    (b : BanListState) (a : ℕ)
    → find_pattern (pattern_of expr) (pop_expired hash now b.list b).index ≡ some a
    → register hash now fresh expr pred created b
      ≡ refresh_known a created (pop_expired hash now b.list b)
unfolding register
register_known hash now fresh expr pred created b a f = rw (f, register) refl

register_unknown :
    (hash : Bytes → ℕ) (now : ℤ) (fresh : ℕ) (expr : BanExpr) (pred : Object → Bool) (created : ℤ)
    (b : BanListState)
    → find_pattern (pattern_of expr) (pop_expired hash now b.list b).index ≡ none
    → register hash now fresh expr pred created b
      ≡ append_ban hash fresh
          (new_ban (pattern_of expr) pred created)
          (evict_to_cap hash (pop_expired hash now b.list b).list (pop_expired hash now b.list b))
unfolding register
register_unknown hash now fresh expr pred created b f = rw (f, register) refl

-- After register the list is within its capacity, the index and the bans for the snapshot agree with
-- it, and the index has a ban for the pattern whose creation time and exemption instant are the
-- given time, whether it was there before or is new. The new ban's address is on no ban of the list.
pub register-IsBanList :
    (hash : Bytes → ℕ) (now : ℤ) (fresh : ℕ) (expr : BanExpr) (pred : Object → Bool) (created : ℤ)
    (b : BanListState)
    → IsBanList b
    → IsWithinCap b
    → NotIn fresh b.list
    → (IsBanList (register hash now fresh expr pred created b))
      × (IsWithinCap (register hash now fresh expr pred created b))
      × (IsRegistered expr created (register hash now fresh expr pred created b))
unfolding Registers IsWithinCap
register-IsBanList hash now fresh expr pred created b v cap new =
    let popped = pop_expired hash now b.list b in
    let s = pop_expired-Shrinks hash now b.list b refl v in
    let few : length popped.list ≤ cap_or_default popped =
      omega (arith, cap, Shrinks-length b popped s, same_cap b popped s.capacity) in
    let new' : NotIn fresh popped.list =
      (NotIn-append fresh s.gone popped.list (subst (λ t. NotIn fresh t) s.list new)).1 in
    elim (Option-cases (find_pattern (pattern_of expr) popped.index)) [
      | inr (a, f) ↦
          subst (λ t. Registers expr created t)
            (sym (register_known hash now fresh expr pred created b a f))
            (refresh_known-Registers expr created a popped s.valid few f)
      | inl f ↦
          let c = evict_to_cap hash popped.list popped in
          let e = evict_to_cap-Shrinks hash popped.list popped refl s.valid in
          let room : length c.list < cap_or_default c = omega (
            arith,
            evict_to_cap-length hash popped.list popped refl s.valid,
            same_cap popped c e.capacity,
          ) in
          subst (λ t. Registers expr created t)
            (sym (register_unknown hash now fresh expr pred created b f))
            (append-Registers hash expr pred created fresh c e.valid room
              (NotIn-append fresh e.gone c.list (subst (λ t. NotIn fresh t) e.list new')).1
              (unknown-Shrinks (pattern_of expr) popped c s.valid e f))
    ]

keeps_predicate :
    (hash : Bytes → ℕ) (now : ℤ) (fresh : ℕ) (expr : BanExpr) (pred : Object → Bool) (created : ℤ)
    (b : BanListState) (a : ℕ)
    → IsBanList b
    → find_pattern (pattern_of expr) (pop_expired hash now b.list b).index ≡ some a
    → ((register hash now fresh expr pred created b).bans a).pred ≡ (b.bans a).pred
unfolding refresh_known refresh_ban
keeps_predicate hash now fresh expr pred created b a v f =
    let popped = pop_expired hash now b.list b in
    ap (λ t. (t.bans a).pred) (register_known hash now fresh expr pred created b a f)
    ∙ (ap (λ t. t.pred) (set_ban_self popped.bans a (refresh_ban created (popped.bans a)))
        ∙ ap (λ h. (h a).pred) (pop_expired-Shrinks hash now b.list b refl v).bans)

-- A pattern that is issued again while its ban is listed keeps the predicate of the first issue. If
-- the CreatedAt which that predicate was compiled with was set, an object that was stored after that
-- CreatedAt is not hit by the full test of the ban, however late the new creation time is and
-- whatever the new predicate says.
pub reissued_ban-misses :
    (hash : Bytes → ℕ) (now : ℤ) (fresh : ℕ) (expr : BanExpr) (pred : Object → Bool) (created : ℤ)
    (b : BanListState) (a : ℕ)
    → IsBanList b
    → find_pattern (pattern_of expr) (pop_expired hash now b.list b).index ≡ some a
    → (first : BanExpr) (host path : Bytes → Bool) → (b.bans a).pred ≡ ban_predicate first host path
    → is_zero_time first.created_at ≡ false
    → (obj : Object) → after obj.stored_at first.created_at ≡ true
    → (later ttl : ℤ)
    → ban_hits later ttl obj ((register hash now fresh expr pred created b).bans a) ≡ false
unfolding ban_hits ban_predicate
reissued_ban-misses hash now fresh expr pred created b a v f first host path p set obj late later
      ttl =
    let no_hit : ban_predicate first host path obj ≡ false = rw (set, late) refl in
    let same = keeps_predicate hash now fresh expr pred created b a v f in
    let misses : ((register hash now fresh expr pred created b).bans a).pred obj ≡ false =
      ap (λ q. q obj) (same ∙ p) ∙ no_hit in
    ground (arith, misses)
