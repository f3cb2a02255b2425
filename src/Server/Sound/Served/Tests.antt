-- ===== src/Server/Sound/Served/Tests.antt =====
-- A server that has handled a few requests.
use ice_core.Base.{ℕ, ◌≡◌, refl, false, some, List, [], ◌∷◌, codes, arith}
use ice_core.Base.Int.{pos}
use ice_core.Catalog.Registry
use ice_core.Catalog.Registry.Answers.{rows_at, wanted}
use ice_core.Catalog.Registry.Cached.{Answered}
use ice_core.Catalog.Samples.{users, one_table}
use ice_core.Server.{MetadataServer, new_server}
use ice_core.Server.Samples.{sample_env, new_part}
use ice_core.Server.Tables.{rename}
use ice_core.Server.Sound.{IsSound}
use ice_core.Server.Sound.Changes.{Ranges}
use ice_core.Server.Sound.Served.{
  Request, get_partitions, commit_snapshot, alter_table, serve, StaysSound, serve-IsSound,
  new_server-IsSound, serve-get_partitions,
}

-- A read that fills the cache, a commit, a read and a rename.
abbrev requests : List (ℕ × Request)
requests =
    (1, get_partitions users 0 (pos 0) [])
    ∷ (2, commit_snapshot users 1 [] (new_part ∷ []) [])
    ∷ (3, get_partitions users 0 (pos 0) [])
    ∷ (4, alter_table users (rename (some (codes "people"))))
    ∷ []

abbrev start : MetadataServer
start = new_server one_table (pos 2) false 60

sample-Ranges : Ranges sample_env
sample-Ranges items h = record { once = h; same = λ k. refl }

start-IsSound : IsSound sample_env.pg start
start-IsSound =
    new_server-IsSound sample_env.pg one_table (pos 2) false 60 (tt, tt) (omega arith, tt)

serve-IsSound_example : StaysSound sample_env (serve sample_env requests start)
serve-IsSound_example = serve-IsSound sample_env sample-Ranges requests start start-IsSound

serve-get_partitions_example :
    (s' : MetadataServer) × (serve sample_env requests start ≡ some s')
    × (a : Registry.Answer) × (r : Registry.PartitionRegistry) × (Registry.get_partitions
          sample_env.pg s'.partitions
          (codes "people")
          0
        ≡ some (a, r))
    × Answered sample_env.pg s'.partitions.db.committed s'.partitions.db.sequences
        (rows_at sample_env.pg
          (codes "people")
          (wanted (codes "people") 0 s'.partitions.db.committed)
          s'.partitions.db.committed)
        a
        r
serve-get_partitions_example =
    serve-get_partitions sample_env sample-Ranges requests start (codes "people") 0 start-IsSound
