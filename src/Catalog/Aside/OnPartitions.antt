-- ===== src/Catalog/Aside/OnPartitions.antt =====
-- The statements on partitions of one table: each leaves what the other tables show.
use ice_core.Base.{◌∙◌, not, ◌==◌, text_eq, nat_eq, Text, arith, filter}
use ice_core.Base.Int.{ℤ, int_eq}
use ice_core.Db.Rows.{PartitionRow, Tables}
use ice_core.Db.Exec.{Pg, done}
use ice_core.Db.Select.{update_where}
use ice_core.Db.Foreign.{select-append_other, select-mark_other, select-delete_other}
use ice_core.Db.Partitions.{insert_partition, is_target, mark_deleted}
use ice_core.Catalog.Aside.{Local, Foreign}

module _ (pg : Pg) (others : Text → Type 0) (before : Tables) where
  pub insert_partition-Local :
      (id snapshot : ℤ) (part : PartitionRow) (stats : Text)
      → Foreign pg others before id
      → Local pg others before (insert_partition pg id snapshot part stats)
  insert_partition-Local id snapshot part stats foreign = record {
    step = λ m t s h. record {
      unique = h.unique;
      below = h.below;
      same = h.same;
      view =
          λ n r v o l. select-append_other pg r.table_id v t _ (foreign n r o l) ∙ h.view n r v o l;
    };
    grows = λ m t s. omega arith;
  }

  pub mark_deleted-Local :
      (id : ℤ) (key : Text) (snapshot : ℤ)
      → Foreign pg others before id
      → Local pg others before {A = Unit {0}} (λ m t s. (
        done tt,
        record t {
          partitions = update_where (is_target pg id key) (mark_deleted pg snapshot) t.partitions;
        },
        s,
      ))
  mark_deleted-Local id key snapshot foreign = record {
    step = λ m t s h. record {
      unique = h.unique;
      below = h.below;
      same = h.same;
      view = λ n r v o l.
          select-mark_other pg r.table_id v t id key snapshot (foreign n r o l) ∙ h.view n r v o l;
    };
    grows = λ m t s. omega arith;
  }

  pub delete_partitions-Local :
      (id : ℤ)
      → Foreign pg others before id
      → Local pg others before {A = Unit {0}} (λ m t s.
        (done tt, record t { partitions = filter (λ r. not (r.table_id == id)) t.partitions }, s))
  delete_partitions-Local id foreign = record {
    step = λ m t s h. record {
      unique = h.unique;
      below = h.below;
      same = h.same;
      view = λ n r v o l.
          select-delete_other pg r.table_id v t id (foreign n r o l) ∙ h.view n r v o l;
    };
    grows = λ m t s. omega arith;
  }
