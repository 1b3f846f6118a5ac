-- ===== src/Tests/Schema.antt =====
-- The theorem on the migration, on a database that is the list of its tables.
use stock_monitoring.Common.{
  String, str_eq_refl, false, not, ◌||◌, if◌then◌else◌, List, [], ◌∷◌, ◌++◌, any, filter,
  filter-append, filter-eq-nil, filter-not_none, append-nil, ◌≡◌, refl, arith,
}
use stock_monitoring.Domain.Errors.{ok, err, value_error}
use stock_monitoring.Storage.Schema.{
  ColumnType, Table, Op, DdlLaws, column, named, refers, is_closed,
}
use stock_monitoring.Storage.Schema.Initial.{upgrade, downgrade}
use stock_monitoring.Storage.Schema.Migration.{any-weaken, downgrade-upgrade}
use stock_monitoring.Storage.Schema.Models.{metadata_tables}

abbrev others : String → List Table → List Table
others name tables = filter (λ t. not (named name t)) tables

-- A table is created unless it exists or refers to a missing one, and dropped unless another refers to
-- it.
abbrev listed : Op (List Table)
listed = record {
  tables = λ s. s;
  create_table = λ t s.
      if any (named t.name) s || not (is_closed s t)
      then (err value_error, s)
      else (ok tt, s ++ t ∷ []);
  drop_table = λ name s.
      if any (refers name) (others name s) then (err value_error, s) else (ok tt, others name s);
}

others-last :
    (t : Table) (rest : List Table)
    → any (λ x. named t.name x || refers t.name x) rest ≡ false
    → others t.name (rest ++ t ∷ []) ≡ rest
others-last t rest clear =
    rw
      (
        filter-append (λ x. not (named t.name x)) rest (t ∷ []),
        str_eq_refl t.name,
        filter-not_none (named t.name) rest (
            filter-eq-nil (named t.name) rest (
              any-weaken (λ x. named t.name x || refers t.name x) (named t.name) rest
                (λ x h. ground (arith, h)) clear)),
      )
      (append-nil rest)

listed-DdlLaws : DdlLaws listed
listed-DdlLaws = record {
  create_table-ok = λ t s free closed. rw (free, closed) (refl, refl);
  drop_table-ok = λ t rest s now clear.
      rw
        (
          now,
          others-last t rest clear,
          any-weaken (λ x. named t.name x || refers t.name x) (refers t.name) rest
              (λ x h. ground (arith, h)) clear,
        )
        (refl, refl);
}

abbrev versions : List Table
versions =
    record {
      name = "alembic_version";
      columns = column "version_num" ColumnType.string ∷ [];
      constraints = [];
    }
    ∷ []

downgrade-upgrade_example :
    ((upgrade listed versions).0 ≡ ok tt)
    × (listed.tables (upgrade listed versions).1 ≡ versions ++ metadata_tables)
    × ((downgrade listed (upgrade listed versions).1).0 ≡ ok tt)
    × (listed.tables (downgrade listed (upgrade listed versions).1).1 ≡ versions)
downgrade-upgrade_example = downgrade-upgrade listed versions listed-DdlLaws (
  refl,
  (refl, (refl, (refl, (refl, (refl, (refl, (refl, (refl, (refl, (refl, (refl, tt))))))))))),
)
