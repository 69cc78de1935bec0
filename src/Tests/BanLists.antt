-- ===== src/Tests/BanLists.antt =====
-- internal/storage/bans.go at concrete bans, with a small package of regular expressions: those of
-- the form ^literal.
use bouine.Prelude.{
  ℕ, if◌then◌else◌, ◌==◌, ◌≡◌, refl, sym, ap, ◌∙◌, inr, Bool, true, false, List, [], ◌∷◌, ◌++◌,
  Option, none, some, arith,
}
use mathlib.Core.Path.{subst}
use bouine.Prelude.Bytes.{Bytes, codes, eq_bytes, has_prefix}
use bouine.Prelude.Int
use bouine.Prelude.Int.{ℤ, pos}
use bouine.Header.HeaderMap
use bouine.Api.Object
use bouine.Api.Object.{Object}
use bouine.Cluster.Events.{BanExpr}
use bouine.Storage.Sieve.Chains.{NotIn}
use bouine.Storage.Bans
use bouine.Storage.Bans.{
  Regexp, BanPattern, pattern_of, ActiveBan, exempt_after, exempt_nanos_of, is_metachar, prepend,
  literal_of_body, ban_predicate, compile_ban_predicate, path_of,
}
use bouine.Storage.Bans.Snapshots.{snapshot_matches, compile_ban_snapshot, is_ban_expired}
use bouine.Storage.Bans.Lookups
use bouine.Storage.Bans.Lookups.{any_hits, ban_hits, Apart}
use bouine.Storage.Bans.Literals.{
  Quotes, done, plain, quoted, IsRegexp, no_classes, literal_of_body-Quotes, plain_char,
  quoted_char,
}
use bouine.Storage.Bans.Classes.{IsCompiled, compiled_snapshot-any_hits}
use bouine.Storage.Bans.BanList
use bouine.Storage.Bans.BanList.{BanListState, register, find_pattern, pop_expired, new_ban}
use bouine.Storage.Bans.Registrations
use bouine.Storage.Bans.Registrations.{IsBanList}
use bouine.Storage.Bans.Invariants.{
  IsWithinCap, IsRegistered, register-IsBanList, reissued_ban-misses,
}
use bouine.Storage.Bans.BanList.{current_snapshot}
use bouine.Storage.Bans.Pruning.{
  descriptors, is_nonempty, NoSurrogates, descriptors-snapshot_matches,
}
use bouine.Storage.Bans.Escapes.{escape_pattern, escape-misses}
use bouine.Tests.HotShards.{page_of}

abbrev test_of_literal : Option Bytes → Option (Bytes → Bool)
test_of_literal none = none
test_of_literal (some lit) = some (λ v. has_prefix v lit)

abbrev prefix_regexp : Regexp
prefix_regexp [] = none
prefix_regexp (c ∷ s) = test_of_literal (literal_of_body s)

abbrev answer : Option (Bytes → Bool) → Bytes → Bool
answer none v = false
answer (some f) v = f v

ends_badly : {body lit : Bytes} → Quotes body lit → literal_of_body (body ++ (b'$' ∷ [])) ≡ none
unfolding literal_of_body is_metachar
ends_badly done = refl
ends_badly (plain c {body} m a q) =
    plain_char c (body ++ (b'$' ∷ [])) m ∙ ap (λ o. prepend c o) (ends_badly q)
ends_badly (quoted c {body} p q) =
    quoted_char c (body ++ (b'$' ∷ [])) ∙ ap (λ o. prepend c o) (ends_badly q)

prefix_regexp-IsRegexp : IsRegexp prefix_regexp
prefix_regexp-IsRegexp = record {
  prefix = λ body lit q f r v.
      ap (λ o. answer o v) (sym r)
      ∙ ap (λ o. answer (test_of_literal o) v) (literal_of_body-Quotes q);
  exact = λ body lit q f r v. absurd (ground (arith, sym (ap test_of_literal (ends_badly q)) ∙ r));
}

abbrev created : ℤ
created = pos 63902822400000000000

abbrev news : BanExpr
news = record {
  host_regex = [];
  path_regex = codes "^/news";
  surrogate_key = [];
  created_at = created;
}

abbrev shop : BanExpr
shop = record {
  host_regex = codes "shop";
  path_regex = [];
  surrogate_key = [];
  created_at = created;
}

abbrev news_path : Bytes → Bool
news_path v = has_prefix v (codes "/news")

abbrev any_value : Bytes → Bool
any_value v = true

abbrev shop_host : Bytes → Bool
shop_host v = eq_bytes v (codes "shop")

abbrev ban_of : BanExpr → (Bytes → Bool) → (Bytes → Bool) → ActiveBan
ban_of e host path = new_ban (pattern_of e) (ban_predicate e host path) created

news-IsCompiled : IsCompiled prefix_regexp (ban_of news any_value news_path)
unfolding compile_ban_predicate Bans.compile_ban_pattern Bans.is_ban_literal is_metachar
    literal_of_body new_ban exempt_after exempt_nanos_of no_classes Int.◌-ℤ◌ Int.◌+ℤ◌ Int.wrap64
news-IsCompiled = record {
  expr = news;
  pred = refl;
  pattern = refl;
  instant = inr refl;
  host_classes = refl;
  path_classes = refl;
}

shop-IsCompiled : IsCompiled prefix_regexp (ban_of shop shop_host any_value)
unfolding compile_ban_predicate Bans.compile_ban_pattern Bans.is_ban_literal is_metachar
    literal_of_body new_ban exempt_after exempt_nanos_of no_classes Int.◌-ℤ◌ Int.◌+ℤ◌ Int.wrap64
shop-IsCompiled = record {
  expr = shop;
  pred = refl;
  pattern = refl;
  instant = inr refl;
  host_classes = refl;
  path_classes = refl;
}

abbrev both_bans : List ActiveBan
both_bans = ban_of news any_value news_path ∷ ban_of shop shop_host any_value ∷ []

both_bans-Apart : Apart both_bans
unfolding Lookups.same_literal Bans.classify_ban Bans.classify_pattern Bans.is_ban_literal
    is_metachar Bans.anchored_exact Bans.anchored_prefix Bans.ends_in_dollar literal_of_body new_ban
both_bans-Apart = ((refl, tt), (tt, tt))

abbrev article : Object
article = record (page_of (codes "hello")) {
  header = record {
    entries = record { key = codes "X-Bouine-Path"; off = 0 } ∷ [];
    values = codes "/news/1" ∷ [];
  };
}

compiled_snapshot-any_hits_example :
    snapshot_matches (compile_ban_snapshot created (pos 3600000000000) both_bans) article
    ≡ any_hits created (pos 3600000000000) article both_bans
compiled_snapshot-any_hits_example =
    compiled_snapshot-any_hits prefix_regexp prefix_regexp-IsRegexp created (pos 3600000000000)
      both_bans (news-IsCompiled, (shop-IsCompiled, tt)) both_bans-Apart article

abbrev no_bans : BanListState
no_bans = record {
  bans = λ a. ban_of news any_value news_path;
  snap = none;
  index = [];
  surr = none;
  list = [];
  rest = [];
  ttl = pos 0;
  capacity = pos 1;
  dirty = false;
}

no_bans-IsBanList : IsBanList no_bans
unfolding Registrations.non_surrogates
no_bans-IsBanList = record { index = refl; rest = refl }

no_bans-IsWithinCap : IsWithinCap no_bans
unfolding IsWithinCap BanList.cap_or_default
no_bans-IsWithinCap = omega arith

abbrev hash : Bytes → ℕ
hash key = 7

-- A list of one ban, which is full.
abbrev one_ban : BanListState
one_ban = register hash created 0 news (ban_predicate news any_value news_path) created no_bans

one_ban-IsBanList : IsBanList one_ban × IsWithinCap one_ban
one_ban-IsBanList =
    let r =
      register-IsBanList hash created 0 news (ban_predicate news any_value news_path) created
        no_bans no_bans-IsBanList no_bans-IsWithinCap tt in
    (r.0, r.1)

one_ban_list : one_ban.list ≡ 0 ∷ []
unfolding register pop_expired find_pattern BanList.evict_to_cap BanList.append_ban new_ban
    BanList.is_surrogate_class Bans.classify_ban Bans.classify_pattern Bans.is_ban_literal
    is_metachar Bans.anchored_exact Bans.anchored_prefix Bans.ends_in_dollar literal_of_body
one_ban_list = refl

register-IsBanList_example :
    (IsBanList
      (register hash created 1 shop (ban_predicate shop shop_host any_value) created one_ban))
    × (IsWithinCap
        (register hash created 1 shop (ban_predicate shop shop_host any_value) created one_ban))
    × (IsRegistered shop created
        (register hash created 1 shop (ban_predicate shop shop_host any_value) created one_ban))
register-IsBanList_example =
    register-IsBanList hash created 1 shop (ban_predicate shop shop_host any_value) created one_ban
      one_ban-IsBanList.0 one_ban-IsBanList.1 (subst (λ l. NotIn 1 l) (sym one_ban_list) (refl, tt))

-- An hour later.
abbrev reissued : ℤ
reissued = pos 63902826000000000000

one_ban_found :
    find_pattern (pattern_of news) (pop_expired hash created one_ban.list one_ban).index ≡ some 0
unfolding register pop_expired find_pattern BanList.eq_pattern BanList.evict_to_cap
    BanList.append_ban BanList.set_ban is_ban_expired BanList.ttl_or_default Object.sub_time
    Int.◌-ℤ◌ new_ban BanList.is_surrogate_class Bans.classify_ban Bans.classify_pattern
    Bans.is_ban_literal is_metachar Bans.anchored_exact Bans.anchored_prefix Bans.ends_in_dollar
    literal_of_body
one_ban_found = refl

one_ban_pred : (one_ban.bans 0).pred ≡ ban_predicate news any_value news_path
unfolding register pop_expired find_pattern BanList.evict_to_cap BanList.append_ban BanList.set_ban
    new_ban BanList.is_surrogate_class Bans.classify_ban Bans.classify_pattern Bans.is_ban_literal
    is_metachar Bans.anchored_exact Bans.anchored_prefix Bans.ends_in_dollar literal_of_body
one_ban_pred = refl

-- Stored between the two issues of the ban.
abbrev later_article : Object
later_article = record article { stored_at = pos 63902824000000000000 }

reissued_ban-misses_example :
    ban_hits reissued (pos 86400000000000) later_article (
      (register hash created 1 news (ban_predicate news any_value news_path) reissued one_ban).bans
        0)
    ≡ false
reissued_ban-misses_example =
    reissued_ban-misses hash created 1 news (ban_predicate news any_value news_path) reissued
      one_ban 0 one_ban-IsBanList.0 one_ban_found news any_value news_path one_ban_pred refl
      later_article refl reissued (pos 86400000000000)

abbrev version_ban : ActiveBan
version_ban = record (ban_of news any_value any_value) {
  pattern = record { host_regex = []; path_regex = codes "^/v\\d"; surrogate_key = [] };
}

version-Quotes : Quotes (codes "/v") (codes "/v")
unfolding is_metachar
version-Quotes = plain b'/' refl (omega arith) (plain b'v' refl (omega arith) done)

abbrev version_page : Object
version_page = record article {
  header = record {
    entries = record { key = codes "X-Bouine-Path"; off = 0 } ∷ [];
    values = codes "/v1" ∷ [];
  };
}

version_pattern : version_ban.pattern ≡ escape_pattern (codes "/v") b'd'
unfolding escape_pattern
version_pattern = refl

version_prefix : has_prefix (path_of version_page) (codes "/vd") ≡ false
unfolding HeaderMap.get HeaderMap.get_found HeaderMap.find_key has_prefix
version_prefix = refl

escape-misses_example :
    snapshot_matches
      (compile_ban_snapshot created (pos 3600000000000) (version_ban ∷ []))
      version_page
    ≡ false
escape-misses_example =
    escape-misses (codes "/v") (codes "/v") version-Quotes b'd' refl version_ban version_pattern
      created (pos 3600000000000) version_page version_prefix

-- Both bans in a list.
abbrev two_bans : BanListState
two_bans = record no_bans {
  bans = λ a. if a == 0 then ban_of news any_value news_path else ban_of shop shop_host any_value;
  index = (pattern_of news, 0) ∷ (pattern_of shop, 1) ∷ [];
  list = 0 ∷ 1 ∷ [];
  rest = 0 ∷ 1 ∷ [];
  capacity = pos 0;
}

two_bans-IsBanList : IsBanList two_bans × NoSurrogates two_bans.bans two_bans.list
unfolding Registrations.non_surrogates new_ban BanList.is_surrogate_class Bans.classify_ban
    Bans.classify_pattern Bans.is_ban_literal is_metachar Bans.anchored_exact Bans.anchored_prefix
    Bans.ends_in_dollar literal_of_body
two_bans-IsBanList = (record { index = refl; rest = refl }, (refl, (refl, tt)))

descriptors-snapshot_matches_example :
    is_nonempty (descriptors article created two_bans)
    ≡ snapshot_matches (current_snapshot true created (record two_bans { dirty = true })).0 article
descriptors-snapshot_matches_example =
    descriptors-snapshot_matches prefix_regexp prefix_regexp-IsRegexp two_bans two_bans-IsBanList.0
      two_bans-IsBanList.1 (news-IsCompiled, (shop-IsCompiled, tt)) both_bans-Apart article created
