-- ===== src/Storage/Bans/Registrations.antt =====
-- internal/storage/bans.go: the index and the views of the list, and what evictions from its head leave
-- of them.
use bouine.Prelude.{
  ℕ, ◌≤◌, ◌<◌, ◌≡◌, refl, sym, ap, ◌∙◌, inl, inr, true, false, List, [], ◌∷◌, ◌++◌, map, leb,
  length, arith, if◌then◌else◌, Bool-cases,
}
use mathlib.Core.Path.{subst}
use bouine.Prelude.Bytes.{Bytes, eq_bytes_refl}
use bouine.Prelude.Int.{ℤ}
use bouine.Storage.Bans.{BanPattern, ActiveBan}
use bouine.Storage.Bans.Snapshots.{is_ban_expired}
use bouine.Storage.Bans.BanList.{
  BanListState, ttl_or_default, cap_or_default, eq_pattern, delete_pattern, drop_rest, evict_ban,
  pop_expired, evict_to_cap,
}

abbrev pub index_entry : (ℕ → ActiveBan) → ℕ → BanPattern × ℕ
index_entry bans a = ((bans a).pattern, a)

unfoldable pub non_surrogates : (ℕ → ActiveBan) → List ℕ → List ℕ
non_surrogates bans [] = []
non_surrogates bans (a ∷ list) =
    if (bans a).surrogate then non_surrogates bans list else a ∷ non_surrogates bans list

-- The index holds the bans of the list under their patterns, and `rest` those that are not on
-- surrogate keys alone, in the order of the list.
pub record IsBanList (b : BanListState) : Type 0 where
  pub index : b.index ≡ map (index_entry b.bans) b.list
  pub rest : b.rest ≡ non_surrogates b.bans b.list

pub eq_pattern_refl : (p : BanPattern) → eq_pattern p p ≡ true
unfolding eq_pattern
eq_pattern_refl p =
    ground
      (arith, eq_bytes_refl p.host_regex, eq_bytes_refl p.path_regex, eq_bytes_refl p.surrogate_key)

delete_first :
    (p : BanPattern) (a : ℕ) (m : List (BanPattern × ℕ)) → delete_pattern p ((p, a) ∷ m) ≡ m
unfolding delete_pattern
delete_first p a m = rw (eq_pattern_refl p) refl

drop_first : (a : ℕ) (l : List ℕ) → drop_rest a (a ∷ l) ≡ l
unfolding drop_rest
drop_first a l = ground arith

rest_surrogate :
    (bans : ℕ → ActiveBan) (a : ℕ) (list : List ℕ)
    → (bans a).surrogate ≡ true
    → non_surrogates bans (a ∷ list) ≡ non_surrogates bans list
unfolding non_surrogates
rest_surrogate bans a list s = rw s refl

rest_other :
    (bans : ℕ → ActiveBan) (a : ℕ) (list : List ℕ)
    → (bans a).surrogate ≡ false
    → non_surrogates bans (a ∷ list) ≡ a ∷ non_surrogates bans list
unfolding non_surrogates
rest_other bans a list s = rw s refl

-- What an eviction from the head leaves.
pub record Shrinks (b : BanListState) (c : BanListState) : Type 0 where
  pub valid : IsBanList c
  pub gone : List ℕ
  pub list : b.list ≡ gone ++ c.list
  pub bans : c.bans ≡ b.bans
  pub capacity : c.capacity ≡ b.capacity

Shrinks-refl : (b : BanListState) → IsBanList b → Shrinks b b
Shrinks-refl b v = record { valid = v; gone = []; list = refl; bans = refl; capacity = refl }

Shrinks-first :
    (b c d : BanListState) (a : ℕ)
    → b.list ≡ a ∷ c.list
    → c.bans ≡ b.bans
    → c.capacity ≡ b.capacity
    → Shrinks c d
    → Shrinks b d
Shrinks-first b c d a list bans capacity s = record {
  valid = s.valid;
  gone = a ∷ s.gone;
  list = list ∙ ap (λ t. a ∷ t) s.list;
  bans = s.bans ∙ bans;
  capacity = s.capacity ∙ capacity;
}

evict_ban_lem :
    (hash : Bytes → ℕ) (a : ℕ) (list : List ℕ) (b : BanListState)
    → b.list ≡ a ∷ list
    → IsBanList b
    → IsBanList (evict_ban hash a list b)
      × ((evict_ban hash a list b).list ≡ list)
      × ((evict_ban hash a list b).bans ≡ b.bans)
      × ((evict_ban hash a list b).capacity ≡ b.capacity)
unfolding evict_ban
evict_ban_lem hash a list b is v =
    let index : delete_pattern (b.bans a).pattern b.index ≡ map (index_entry b.bans) list =
      rw (v.index, is) (delete_first (b.bans a).pattern a (map (index_entry b.bans) list)) in
    let before : b.rest ≡ non_surrogates b.bans (a ∷ list) =
      v.rest ∙ ap (λ t. non_surrogates b.bans t) is in
    elim (Bool-cases (b.bans a).surrogate) [
      | inl s ↦
          let rest : b.rest ≡ non_surrogates b.bans list =
            before ∙ rest_surrogate b.bans a list s in
          rw s (record { index = index; rest = rest }, refl, refl, refl)
      | inr s ↦
          let kept : b.rest ≡ a ∷ non_surrogates b.bans list =
            before ∙ rest_other b.bans a list s in
          let rest : drop_rest a b.rest ≡ non_surrogates b.bans list =
            rw kept (drop_first a (non_surrogates b.bans list)) in
          rw s (record { index = index; rest = rest }, refl, refl, refl)
    ]

pop_old :
    (hash : Bytes → ℕ) (now : ℤ) (a : ℕ) (list : List ℕ) (b : BanListState)
    → is_ban_expired now (ttl_or_default b) (b.bans a) ≡ true
    → pop_expired hash now (a ∷ list) b ≡ pop_expired hash now list (evict_ban hash a list b)
unfolding pop_expired
pop_old hash now a list b old = rw (pop_expired, old) refl

pop_young :
    (hash : Bytes → ℕ) (now : ℤ) (a : ℕ) (list : List ℕ) (b : BanListState)
    → is_ban_expired now (ttl_or_default b) (b.bans a) ≡ false
    → pop_expired hash now (a ∷ list) b ≡ b
unfolding pop_expired
pop_young hash now a list b young = rw (pop_expired, young) refl

evict_full :
    (hash : Bytes → ℕ) (a : ℕ) (list : List ℕ) (b : BanListState)
    → leb (cap_or_default b) (length (a ∷ list)) ≡ true
    → evict_to_cap hash (a ∷ list) b ≡ evict_to_cap hash list (evict_ban hash a list b)
unfolding evict_to_cap
evict_full hash a list b full = rw (evict_to_cap, full) refl

evict_room :
    (hash : Bytes → ℕ) (a : ℕ) (list : List ℕ) (b : BanListState)
    → leb (cap_or_default b) (length (a ∷ list)) ≡ false
    → evict_to_cap hash (a ∷ list) b ≡ b
unfolding evict_to_cap
evict_room hash a list b room = rw (evict_to_cap, room) refl

pub pop_expired-Shrinks :
    (hash : Bytes → ℕ) (now : ℤ) (list : List ℕ) (b : BanListState)
    → b.list ≡ list
    → IsBanList b
    → Shrinks b (pop_expired hash now list b)
unfolding pop_expired
pop_expired-Shrinks hash now [] b is v = Shrinks-refl b v
pop_expired-Shrinks hash now (a ∷ list) b is v =
    elim (Bool-cases (is_ban_expired now (ttl_or_default b) (b.bans a))) [
      | inl old ↦
          let c = evict_ban hash a list b in
          let (v', is', bans, cap') = evict_ban_lem hash a list b is v in
          subst (λ t. Shrinks b t) (sym (pop_old hash now a list b old))
            (Shrinks-first b c (pop_expired hash now list c) a (is ∙ ap (λ t. a ∷ t) (sym is')) bans
              cap' (pop_expired-Shrinks hash now list c is' v'))
      | inr young ↦
          subst (λ t. Shrinks b t) (sym (pop_young hash now a list b young)) (Shrinks-refl b v)
    ]

pub evict_to_cap-Shrinks :
    (hash : Bytes → ℕ) (list : List ℕ) (b : BanListState)
    → b.list ≡ list
    → IsBanList b
    → Shrinks b (evict_to_cap hash list b)
unfolding evict_to_cap
evict_to_cap-Shrinks hash [] b is v = Shrinks-refl b v
evict_to_cap-Shrinks hash (a ∷ list) b is v =
    elim (Bool-cases (leb (cap_or_default b) (length (a ∷ list)))) [
      | inl full ↦
          let c = evict_ban hash a list b in
          let (v', is', bans, cap') = evict_ban_lem hash a list b is v in
          subst (λ t. Shrinks b t) (sym (evict_full hash a list b full))
            (Shrinks-first b c (evict_to_cap hash list c) a (is ∙ ap (λ t. a ∷ t) (sym is')) bans
              cap' (evict_to_cap-Shrinks hash list c is' v'))
      | inr room ↦ subst (λ t. Shrinks b t) (sym (evict_room hash a list b room)) (Shrinks-refl b v)
    ]

capped : (b : BanListState) → 1 ≤ cap_or_default b
unfolding cap_or_default
capped b = ground arith

pub same_cap : (b c : BanListState) → c.capacity ≡ b.capacity → cap_or_default c ≡ cap_or_default b
unfolding cap_or_default
same_cap b c e = rw e refl

-- Whatever was there, the loop leaves room for one more.
pub evict_to_cap-length :
    (hash : Bytes → ℕ) (list : List ℕ) (b : BanListState)
    → b.list ≡ list
    → IsBanList b
    → length (evict_to_cap hash list b).list < cap_or_default b
unfolding evict_to_cap
evict_to_cap-length hash [] b is v = omega (arith, capped b, ap (λ (t : List ℕ). length t) is)
evict_to_cap-length hash (a ∷ list) b is v =
    elim (Bool-cases (leb (cap_or_default b) (length (a ∷ list)))) [
      | inl full ↦
          let c = evict_ban hash a list b in
          let (v', is', bans, cap') = evict_ban_lem hash a list b is v in
          let ih = evict_to_cap-length hash list c is' v' in
          let same = same_cap b c cap' in
          omega (
            arith,
            ih,
            same,
            ap (λ (t : BanListState). length t.list) (evict_full hash a list b full),
          )
      | inr room ↦
          let few : length (a ∷ list) < cap_or_default b = ground (arith, room) in
          omega (
            arith,
            few,
            ap (λ (t : BanListState). length t.list) (evict_room hash a list b room),
            ap (λ (t : List ℕ). length t) is,
          )
    ]
