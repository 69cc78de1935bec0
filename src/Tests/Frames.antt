-- ===== src/Tests/Frames.antt =====
-- internal/cluster/codec.go at concrete events.
use bouine.Prelude.{◌≡◌, refl, inl, inr, [], ◌∷◌, arith, replicate}
use bouine.Prelude.Bytes.{Bytes, codes}
use bouine.Prelude.Int
use bouine.Prelude.Int.{ℤ, pos}
use bouine.Cluster.Wire.{ok, ◌>>=◌}
use bouine.Cluster.Reads.{IsWireTime}
use bouine.Cluster.Events.{
  encode_purge_gossip, encode_purge_http, encode_refresh_gossip, encode_refresh_http, PurgeEvent,
  BanEvent, RefreshEvent, decode_purge_gossip, decode_purge_http, encode_ban_gossip,
  decode_ban_gossip, encode_ban_http, decode_ban_http, decode_refresh_gossip, decode_refresh_http,
}
use bouine.Cluster.PurgeFrames
use bouine.Cluster.RefreshFrames
use bouine.Cluster.PurgeFrames.{IsWirePurge}
use bouine.Cluster.RefreshFrames.{IsWireRefresh}
use bouine.Cluster.BanFrames
use bouine.Cluster.BanFrames.{IsWireBan}
use bouine.Cluster.Decoding
use bouine.Cluster.Digest.{RingDigest}
use bouine.Cluster.Decoding.{Returns}

-- 2026-01-01, in nanoseconds from the zero time.
abbrev new_year : ℤ
new_year = pos 63902822400000000000

new_year-IsWireTime : IsWireTime new_year
unfolding Int.◌-ℤ◌
new_year-IsWireTime = inr (λ e. ground (arith, e), omega arith)

abbrev purge : PurgeEvent
purge = record {
  key = replicate 16 7;
  vary_key = [];
  issuer = codes "bouine-0";
  issued_at = new_year;
  seq = 41;
}

purge-IsWirePurge : IsWirePurge purge
purge-IsWirePurge = record {
  key = refl;
  vary_key = omega arith;
  issuer = omega arith;
  issued_at = new_year-IsWireTime;
  seq = omega arith;
}

abbrev refresh : RefreshEvent
refresh = record { key = replicate 16 9; issuer = codes "bouine-1"; issued_at = pos 0; seq = 42 }

refresh-IsWireRefresh : IsWireRefresh refresh
refresh-IsWireRefresh = record {
  key = refl;
  issuer = omega arith;
  issued_at = inl refl;
  seq = omega arith;
}

decode_purge-encode_purge_example :
    ((encode_purge_gossip purge >>= decode_purge_gossip) ≡ ok purge)
    × ((encode_purge_http purge >>= decode_purge_http) ≡ ok purge)
decode_purge-encode_purge_example = PurgeFrames.decode_purge-encode_purge purge purge-IsWirePurge

decode_refresh-encode_refresh_example :
    ((encode_refresh_gossip refresh >>= decode_refresh_gossip) ≡ ok refresh)
    × ((encode_refresh_http refresh >>= decode_refresh_http) ≡ ok refresh)
decode_refresh-encode_refresh_example =
    RefreshFrames.decode_refresh-encode_refresh refresh refresh-IsWireRefresh

abbrev ban : BanEvent
ban = record {
  predicate = record {
    host_regex = codes "example";
    path_regex = codes "^/img";
    surrogate_key = [];
    created_at = new_year;
  };
  issuer = codes "bouine-0";
  issued_at = new_year;
  seq = 43;
}

ban-IsWireBan : IsWireBan ban
ban-IsWireBan = record {
  host = omega arith;
  path = omega arith;
  surrogate = omega arith;
  created_at = new_year-IsWireTime;
  issuer = omega arith;
  issued_at = new_year-IsWireTime;
  seq = omega arith;
}

decode_ban-encode_ban_example :
    ((encode_ban_gossip ban >>= decode_ban_gossip) ≡ ok ban)
    × ((encode_ban_http ban >>= decode_ban_http) ≡ ok ban)
decode_ban-encode_ban_example = BanFrames.decode_ban-encode_ban ban ban-IsWireBan

-- A gossip header, and then a string that says it is longer than the frame.
abbrev hostile : Bytes
hostile = 66 ∷ 3 ∷ 2 ∷ 255 ∷ 255 ∷ []

decoders-Returns_example :
    (Returns (decode_purge_gossip hostile) × Returns (decode_purge_http hostile))
    × (Returns (decode_ban_gossip hostile) × Returns (decode_ban_http hostile))
    × (Returns (decode_refresh_gossip hostile) × Returns (decode_refresh_http hostile))
decoders-Returns_example = Decoding.decoders-Returns hostile

abbrev digest : RingDigest
digest = record { hash = 9223372036854775813; size = pos 3; version = 12 }
