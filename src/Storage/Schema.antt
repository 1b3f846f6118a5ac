-- ===== src/Storage/Schema.antt =====
-- Tables as SQLAlchemy declares them, and what a migration asks of Alembic.
pub mod Initial
pub mod Models
pub mod Migration
use stock_monitoring.Common.{
  ℕ, String, Bool, true, false, not, ◌&&◌, ◌||◌, str_eq, Option, none, some, List, [], ◌∷◌, ◌++◌,
  any, ◌≡◌,
}
use stock_monitoring.Domain.Action.{Action, pure, ◌>>◌, ◌>>=◌}
use stock_monitoring.Domain.Errors.{ok}

pub data ColumnType : Type 0 where
  integer string boolean float json datetime : ColumnType

-- A default is made in Python when a row is.
pub data Default : Type 0 where
  of_bool : Bool → Default
  of_int : ℕ → Default
  empty_list empty_dict : Default

-- `ForeignKey("table.column")`
pub record ForeignKey : Type 0 where
  pub table : String
  pub column : String

pub record UniqueConstraint : Type 0 where
  pub columns : List String
  pub name : String

pub record Column : Type 0 where
  pub name : String
  pub type : ColumnType
  pub primary_key : Bool
  pub unique : Bool
  pub index : Bool
  pub nullable : Bool
  pub foreign_key : Option ForeignKey
  pub default : Option Default

pub record Table : Type 0 where
  pub name : String
  pub columns : List Column
  pub constraints : List UniqueConstraint

-- `Column(name, type)` with SQLAlchemy's own defaults.
abbrev pub column : String → ColumnType → Column
column name type = record {
  name = name;
  type = type;
  primary_key = false;
  unique = false;
  index = false;
  nullable = true;
  foreign_key = none;
  default = none;
}

-- An integer with `primary_key=True`, which is NOT NULL.
abbrev pub primary_key_column : String → Column
primary_key_column name = record (column name ColumnType.integer) {
  primary_key = true;
  nullable = false;
}

abbrev pub named : String → Table → Bool
named name table = str_eq table.name name

abbrev pub refers_to : String → Option ForeignKey → Bool
refers_to name none = false
refers_to name (some key) = str_eq key.table name

-- Some column refers to the table of a name.
abbrev pub refers : String → Table → Bool
refers name table = any (λ (c : Column). refers_to name c.foreign_key) table.columns

abbrev pub is_dangling : List Table → Option ForeignKey → Bool
is_dangling tables none = false
is_dangling tables (some key) = not (any (named key.table) tables)

-- Every column that refers to a table refers to one of these or to its own.
abbrev pub is_closed : List Table → Table → Bool
is_closed tables table =
    not (any (λ (c : Column). is_dangling (tables ++ table ∷ []) c.foreign_key) table.columns)

-- The schema of a database and Alembic's `op` on it.
pub record Op (S : Type 0) : Type 0 where
  pub tables : S → List Table
  pub create_table : Table → Action S (Unit {0})
  pub drop_table : String → Action S (Unit {0})

module _ {S : Type 0} (op : Op S) where
  abbrev pub create_all : List Table → Action S (Unit {0})
  create_all [] = pure tt
  create_all (table ∷ tables) = do op.create_table table; create_all tables

  -- The loop of `downgrade`.
  abbrev pub drop_all : List String → Action S (Unit {0})
  drop_all [] = pure tt
  drop_all (table ∷ tables) = do op.drop_table table; drop_all tables

-- What the database does: a table whose name is free and whose foreign keys have their tables is
-- created; the table that came last is dropped if no other has its name or refers to it.
pub record DdlLaws {S : Type 0} (op : Op S) : Type 0 where
  pub create_table-ok :
      (table : Table) (s : S)
      → any (named table.name) (op.tables s) ≡ false
      → is_closed (op.tables s) table ≡ true
      → ((op.create_table table s).0 ≡ ok tt)
        × (op.tables (op.create_table table s).1 ≡ op.tables s ++ table ∷ [])
  pub drop_table-ok :
      (table : Table) (rest : List Table) (s : S)
      → op.tables s ≡ rest ++ table ∷ []
      → any (λ t. named table.name t || refers table.name t) rest ≡ false
      → ((op.drop_table table.name s).0 ≡ ok tt) × (op.tables (op.drop_table table.name s).1 ≡ rest)
