-- ===== src/Tests/Batches.antt =====
-- internal/cluster/codec_batch.go at two purges.
use bouine.Prelude.{◌≡◌, ◌⊎◌, refl, inl, true, List, [], ◌∷◌, arith, replicate}
use bouine.Prelude.Bytes.{Bytes, codes}
use bouine.Prelude.Int.{pos, leb_ℤ}
use bouine.Cluster.Wire.{ok, ◌>>=◌}
use bouine.Cluster.Events.{PurgeEvent}
use bouine.Cluster.PurgeFrames.{IsWirePurge}
use bouine.Cluster.Batches.{purge_batch_gossip, encode, decode, encode_budgeted}
use bouine.Cluster.BatchFrames.{purge_batch_gossip-Carries}
use bouine.Cluster.BatchSplits
use bouine.Cluster.BatchSplits.{All}
use bouine.Cluster.BatchBudgets
use bouine.Cluster.BatchBudgets.{FrameFits, decode_each}

abbrev old_purge : PurgeEvent
old_purge = record {
  key = replicate 16 7;
  vary_key = [];
  issuer = codes "bouine-0";
  issued_at = pos 0;
  seq = 41;
}

old_purge-IsWirePurge : IsWirePurge old_purge
old_purge-IsWirePurge = record {
  key = refl;
  vary_key = omega arith;
  issuer = omega arith;
  issued_at = inl refl;
  seq = omega arith;
}

abbrev two_purges : List PurgeEvent
two_purges = old_purge ∷ record old_purge { seq = 42 } ∷ []

two_purges-IsWirePurge : All IsWirePurge two_purges
two_purges-IsWirePurge = (
  old_purge-IsWirePurge,
  (
    record {
      key = refl;
      vary_key = omega arith;
      issuer = omega arith;
      issued_at = inl refl;
      seq = omega arith;
    },
    tt,
  ),
)

decode-encode_example :
    (encode purge_batch_gossip two_purges >>= decode purge_batch_gossip) ≡ ok two_purges
decode-encode_example =
    BatchSplits.decode-encode purge_batch_gossip purge_batch_gossip-Carries two_purges
      two_purges-IsWirePurge (omega arith)

-- A budget for one purge.
encode_budgeted_lem_example :
    (frames : List Bytes) × (encode_budgeted purge_batch_gossip two_purges (pos 60) ≡ ok frames)
    × (decode_each purge_batch_gossip frames ≡ ok two_purges)
    × ((leb_ℤ (pos 60) (pos 0) ≡ true)
        ⊎ All (FrameFits purge_batch_gossip purge_batch_gossip-Carries (pos 60)) frames)
encode_budgeted_lem_example =
    BatchBudgets.encode_budgeted_lem purge_batch_gossip purge_batch_gossip-Carries two_purges
      (pos 60) two_purges-IsWirePurge (omega arith)
