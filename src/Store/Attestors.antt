-- ===== src/Store/Attestors.antt =====
-- server/internal/store/repo_attestorconfig.go: the configured credential sources. Their labels are
-- unique within a kind.
use ouro_pass.Base.{
  is_unset, select, any, Text, lit, text_eq, ℕ, Bool, true, not, ◌&&◌, ◌||◌, none, some, List, [],
  ◌∷◌, ◌++◌,
}
use ouro_pass.Store.Table.{find, update}
use ouro_pass.Store.Domain.{AttestorConfig, Db}
use ouro_pass.Store.Exec.{not_found, Env, Exec, ◌>>=◌, require, some_or, now, query, exec, insert}
use ouro_pass.Store.Timestamp.{ts, text_lt, stamp_lt}
use ouro_pass.Store.Order.{order_by}

abbrev pub attestor_of : AttestorConfig → Text
attestor_of a = a.id

-- Another row of the kind has the label.
abbrev pub labelled : Text → Text → Text → List AttestorConfig → Bool
labelled kind label id rows =
    any (λ c. text_eq c.kind kind && text_eq c.label label && not (text_eq c.id id)) rows

unfoldable pub params_or_empty : Text → Text
params_or_empty [] = lit "{}"
params_or_empty (c ∷ s) = c ∷ s

abbrev pub with_params : AttestorConfig → AttestorConfig
with_params a = record a { params = params_or_empty a.params }

-- What `UPDATE … SET` takes over; the kind and the creation time stay.
abbrev pub take_over : AttestorConfig → AttestorConfig → AttestorConfig
take_over a row = record row {
  label = a.label;
  params = params_or_empty a.params;
  status = a.status;
  updated_at = a.updated_at;
}

-- The index, for the row that is changed.
abbrev pub update_allowed : AttestorConfig → List AttestorConfig → Bool
update_allowed a rows = elim (find attestor_of a.id rows) [
  | none ↦ true
  | some old ↦ not (labelled old.kind a.label a.id rows)
]

-- `ORDER BY created_at, attestor_id`
abbrev pub older_attestor : AttestorConfig → AttestorConfig → Bool
older_attestor a b =
    stamp_lt (ts a.created_at) (ts b.created_at)
    || (not (stamp_lt (ts b.created_at) (ts a.created_at)) && text_lt a.id b.id)

module _ (env : Env) where
  unfoldable pub create : AttestorConfig → Exec Db (Unit {0})
  unfolding insert params_or_empty
  create a =
      insert env
        (λ db.
          is_unset (find attestor_of a.id db.attestors)
          && not (any (λ c. text_eq c.kind a.kind && text_eq c.label a.label) db.attestors))
        (λ db. record db { attestors = db.attestors ++ (with_params a ∷ []) })

  -- `notFoundIfNoRows`
  abbrev not_found_if : Bool → Exec Db (Unit {0})
  not_found_if known = require known not_found

  -- `Update`
  unfoldable pub replace : AttestorConfig → Exec Db (Unit {0})
  unfolding insert params_or_empty query ◌>>=◌
  replace a w =
      let known = not (is_unset (find attestor_of a.id w.db.attestors)) in
      let change =
        insert env (λ db. update_allowed a db.attestors)
          (λ db. record db {
            attestors = update (λ c. text_eq c.id a.id) (take_over a) db.attestors;
          }) in
      (change >>= λ _. not_found_if known) w

  unfoldable pub set_status : Text → Text → ℕ → Exec Db (Unit {0})
  unfolding exec ◌>>=◌
  set_status id status now = do
    known ←
        exec env
          (λ db. record db {
            attestors =
                update (λ c. text_eq c.id id) (λ c. record c { status = status; updated_at = now })
                  db.attestors;
          })
          (λ db. not (is_unset (find attestor_of id db.attestors)))
    not_found_if known

  unfoldable pub delete : Text → Exec Db (Unit {0})
  unfolding exec ◌>>=◌
  delete id = do
    known ←
        exec env (λ db. record db { attestors = select (λ c. not (text_eq c.id id)) db.attestors })
          (λ db. not (is_unset (find attestor_of id db.attestors)))
    not_found_if known

  unfoldable pub get : Text → Exec Db AttestorConfig
  unfolding query ◌>>=◌
  get id = do found ← query env (λ db. find attestor_of id db.attestors); some_or found not_found

  unfoldable pub list : Exec Db (List AttestorConfig)
  unfolding query order_by
  list = query env (λ db. order_by older_attestor db.attestors)

  unfoldable pub list_active : Exec Db (List AttestorConfig)
  unfolding query order_by
  list_active =
      query env
        (λ db. order_by older_attestor (select (λ c. text_eq c.status (lit "active")) db.attestors))
