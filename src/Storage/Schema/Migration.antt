-- ===== src/Storage/Schema/Migration.antt =====
-- The migration leads to the tables of the models, and back.
use stock_monitoring.Common.{
  All-append, none, some, Option, String, Bool, true, false, not, ◌&&◌, ◌||◌, List, [], ◌∷◌, ◌++◌,
  map, any, any-append, All, append-nil, append_assoc, ◌≡◌, refl, sym, ap, ◌∙◌, arith,
}
use stock_monitoring.Domain.Errors.{ok}
use stock_monitoring.Storage.Schema.{
  is_dangling, ForeignKey, Column, Table, Op, DdlLaws, named, refers, is_closed, create_all,
  drop_all,
}
use stock_monitoring.Storage.Schema.Initial.{created_tables, upgrade, downgrade}
use stock_monitoring.Storage.Schema.Models.{metadata_tables}

-- The migration declares what the models declare.
created_tables-eq : created_tables ≡ metadata_tables
created_tables-eq = refl

-- A table has the name, or refers to the one that has.
abbrev pub clashes : String → Table → Bool
clashes name table = named name table || refers name table

-- None of the tables has the name of one to come, or refers to one.
abbrev pub AreApart : List Table → List Table → Type 0
AreApart old tables = All (λ (t : Table). any (clashes t.name) old ≡ false) tables

-- The tables can be created in this order after others, and dropped in this order before others.
abbrev is_buildable : List Table → List Table → Bool
is_buildable seen [] = true
is_buildable seen (t ∷ ts) =
    not (any (named t.name) seen) && is_closed seen t && is_buildable (seen ++ t ∷ []) ts

-- The order in which tables were created that are dropped in this order.
abbrev reversed : List Table → List Table
reversed [] = []
reversed (t ∷ ts) = reversed ts ++ t ∷ []

abbrev is_droppable : List Table → Bool
is_droppable [] = true
is_droppable (t ∷ ts) = not (any (clashes t.name) ts) && is_droppable ts

any-reversed : (p : Table → Bool) (ts : List Table) → any p (reversed ts) ≡ any p ts
any-reversed p [] = refl
any-reversed p (t ∷ ts) = ground (arith, any-append p (reversed ts) (t ∷ []), any-reversed p ts)

All-reversed : (P : Table → Type 0) (ts : List Table) → All P ts → All P (reversed ts)
All-reversed P [] all = tt
All-reversed P (t ∷ ts) (p, all) =
    All-append P (reversed ts) (t ∷ []) (All-reversed P ts all) (p, tt)

pub any-weaken :
    {A : Type 0} (p q : A → Bool) (xs : List A)
    → ((x : A) → q x ≡ true → p x ≡ true)
    → any p xs ≡ false
    → any q xs ≡ false
any-weaken p q [] h nothing = refl
any-weaken p q (x ∷ xs) h nothing = ground (arith, h x, any-weaken p q xs h)

is_dangling-append :
    (old seen : List Table) (key : Option ForeignKey)
    → is_dangling (old ++ seen) key ≡ true
    → is_dangling seen key ≡ true
is_dangling-append old seen none h = h
is_dangling-append old seen (some key) h = ground (arith, h, any-append (named key.table) old seen)

is_closed-append :
    (old seen : List Table) (t : Table) → is_closed seen t ≡ true → is_closed (old ++ seen) t ≡ true
is_closed-append old seen t h =
    rw
      (
        append_assoc old seen (t ∷ []),
        any-weaken (λ (c : Column). is_dangling (seen ++ t ∷ []) c.foreign_key)
            (λ c. is_dangling (old ++ (seen ++ t ∷ [])) c.foreign_key) t.columns
            (λ c. is_dangling-append old (seen ++ t ∷ []) c.foreign_key) (ground (arith, h)),
      )
      refl

is_free-append :
    (old seen : List Table) (t : Table)
    → any (clashes t.name) old ≡ false
    → any (named t.name) seen ≡ false
    → any (named t.name) (old ++ seen) ≡ false
is_free-append old seen t apart free =
    rw
      (
        any-append (named t.name) old seen,
        any-weaken (clashes t.name) (named t.name) old (λ x h. ground (arith, h)) apart,
        free,
      )
      refl

module _ {S : Type 0} (op : Op S) (laws : DdlLaws op) (old : List Table) where
  create_all-ok :
      (ts seen : List Table) (s : S)
      → op.tables s ≡ old ++ seen
      → is_buildable seen ts ≡ true
      → AreApart old ts
      → ((create_all op ts s).0 ≡ ok tt) × (op.tables (create_all op ts s).1 ≡ old ++ (seen ++ ts))
  create_all-ok [] seen s now buildable apart =
      (refl, now ∙ ap (λ l. old ++ l) (sym (append-nil seen)))
  create_all-ok (t ∷ ts) seen s now buildable (apart, aparts) =
      let (made, then) =
        laws.create_table-ok t s
          (rw now (is_free-append old seen t apart (ground (arith, buildable))))
          (rw now (is_closed-append old seen t (ground (arith, buildable)))) in
      let (rest, all) =
        create_all-ok ts (seen ++ t ∷ []) (op.create_table t s).1
          (then ∙ (ap (λ l. l ++ t ∷ []) now ∙ append_assoc old seen (t ∷ [])))
          (ground (arith, buildable)) aparts in
      rw made (rest, all ∙ ap (λ l. old ++ l) (append_assoc seen (t ∷ []) ts))

  drop_all-ok :
      (ts : List Table) (s : S)
      → op.tables s ≡ old ++ reversed ts
      → is_droppable ts ≡ true
      → AreApart old ts
      → ((drop_all op (map (λ (t : Table). t.name) ts) s).0 ≡ ok tt)
        × (op.tables (drop_all op (map (λ (t : Table). t.name) ts) s).1 ≡ old)
  drop_all-ok [] s now droppable apart = (refl, now ∙ append-nil old)
  drop_all-ok (t ∷ ts) s now droppable (apart, aparts) =
      let (made, then) =
        laws.drop_table-ok t (old ++ reversed ts) s
          (now ∙ sym (append_assoc old (reversed ts) (t ∷ [])))
          (rw
            (any-append (clashes t.name) old (reversed ts), apart, any-reversed (clashes t.name) ts)
            (ground (arith, droppable))) in
      let (rest, all) =
        drop_all-ok ts (op.drop_table t.name s).1 then (ground (arith, droppable)) aparts in
      rw made (rest, all)

-- On a database whose tables have none of the names of the migration and refer to none of them, and
-- that creates and drops tables as documented: `upgrade` succeeds and adds exactly the tables that the
-- models declare, with their columns, keys and constraints, and `downgrade` after it succeeds and
-- leaves the tables that were there.
pub downgrade-upgrade :
    {S : Type 0} (op : Op S) (s : S)
    → DdlLaws op
    → AreApart (op.tables s) metadata_tables
    → ((upgrade op s).0 ≡ ok tt)
      × (op.tables (upgrade op s).1 ≡ op.tables s ++ metadata_tables)
      × ((downgrade op (upgrade op s).1).0 ≡ ok tt)
      × (op.tables (downgrade op (upgrade op s).1).1 ≡ op.tables s)
unfolding upgrade downgrade
downgrade-upgrade op s laws apart =
    let (made, then) =
      create_all-ok op laws (op.tables s) metadata_tables [] s (sym (append-nil (op.tables s))) refl
        apart in
    let (gone, back) =
      drop_all-ok op laws (op.tables s) (reversed metadata_tables) (upgrade op s).1 then refl (
        All-reversed (λ (t : Table). any (clashes t.name) (op.tables s) ≡ false) metadata_tables
          apart) in
    (made, then, gone, back)
