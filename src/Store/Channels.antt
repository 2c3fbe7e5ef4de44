-- ===== src/Store/Channels.antt =====
-- server/internal/store/repo_channelconfig.go: channel instances. Their names are unique within a
-- pool and a type, by an index.
use ouro_pass.Base.{
  if◌then◌else◌, is_unset, select, any, Text, lit, text_eq, ℕ, Bool, not, ◌&&◌, ◌||◌, Option, none,
  some, List, [], ◌∷◌, ◌++◌,
}
use ouro_pass.Store.Table.{find, update}
use ouro_pass.Store.Domain.{ChannelConfig, Db}
use ouro_pass.Store.Exec.{
  not_found, conflict, Env, Exec, ◌>>=◌, ◌>>◌, require, some_or, now, query, exec, with_tx, insert,
}
use ouro_pass.Store.Timestamp.{ts, text_lt, stamp_lt}
use ouro_pass.Store.Order.{order_by}

abbrev pub channel_of : ChannelConfig → Text
channel_of c = c.channel_id

abbrev pub has_name : Text → Text → Text → ChannelConfig → Bool
has_name pool_id channel_type name c =
    text_eq c.pool_id pool_id && text_eq c.channel_type channel_type && text_eq c.name name

abbrev pub is_type : Text → Text → ChannelConfig → Bool
is_type pool_id channel_type c = text_eq c.pool_id pool_id && text_eq c.channel_type channel_type

abbrev pub is_channel_active : ChannelConfig → Bool
is_channel_active c = text_eq c.status (lit "active")

-- The primary key and the index, for a new row.
abbrev pub insert_allowed : ChannelConfig → List ChannelConfig → Bool
insert_allowed c rows =
    is_unset (find channel_of c.channel_id rows)
    && not (any (has_name c.pool_id c.channel_type c.name) rows)

-- What `DO UPDATE SET` takes over.
abbrev pub take_over : ChannelConfig → ChannelConfig → ChannelConfig
take_over c row = record row {
  name = c.name;
  config = c.config;
  status = c.status;
  updated_at = c.updated_at;
}

-- The index, for the row that is changed: no other row of its pool and type has the name.
abbrev pub upsert_allowed : ChannelConfig → List ChannelConfig → Bool
upsert_allowed c rows = elim (find channel_of c.channel_id rows) [
  | none ↦ not (any (has_name c.pool_id c.channel_type c.name) rows)
  | some old ↦ not (
      any
        (λ x.
          has_name old.pool_id old.channel_type c.name x && not (text_eq x.channel_id c.channel_id))
        rows)
]

unfoldable pub upsert_rows : ChannelConfig → List ChannelConfig → List ChannelConfig
upsert_rows c rows =
    if is_unset (find channel_of c.channel_id rows)
    then rows ++ (c ∷ [])
    else update (λ x. text_eq x.channel_id c.channel_id) (take_over c) rows

abbrev pub newer_update : ChannelConfig → ChannelConfig → Bool
newer_update a b = stamp_lt (ts b.updated_at) (ts a.updated_at)

-- `ORDER BY channel_type, name`
abbrev pub by_type_and_name : ChannelConfig → ChannelConfig → Bool
by_type_and_name a b =
    text_lt a.channel_type b.channel_type
    || (text_eq a.channel_type b.channel_type && text_lt a.name b.name)

abbrev pub by_name : ChannelConfig → ChannelConfig → Bool
by_name a b = text_lt a.name b.name

unfoldable pub first_row : List ChannelConfig → Option ChannelConfig
first_row [] = none
first_row (c ∷ rows) = some c

module _ (env : Env) where
  unfoldable pub upsert : ChannelConfig → Exec Db (Unit {0})
  unfolding insert upsert_rows
  upsert c =
      insert env (λ db. upsert_allowed c db.channels)
        (λ db. record db { channels = upsert_rows c db.channels })

  -- The `INSERT` of `ReplaceByType` and `Create`.
  unfoldable pub insert_channel : ChannelConfig → Exec Db (Unit {0})
  unfolding insert
  insert_channel c =
      insert env (λ db. insert_allowed c db.channels)
        (λ db. record db { channels = db.channels ++ (c ∷ []) })

  -- `ReplaceByType`
  unfoldable pub replace_by_type : ChannelConfig → Exec Db (Unit {0})
  unfolding with_tx exec insert_channel ◌>>=◌
  replace_by_type c = with_tx env (do
    exec env
        (λ db. record db {
          channels = select (λ x. not (is_type c.pool_id c.channel_type x)) db.channels;
        })
        (λ db. tt)
    insert_channel c)

  -- `GetByType`
  unfoldable pub get_by_type : Text → Exec Db ChannelConfig
  unfolding query order_by first_row ◌>>=◌
  get_by_type channel_type = do
    found ← query env (λ db. first_row (
        order_by newer_update
          (select (λ c. text_eq c.channel_type channel_type && is_channel_active c) db.channels)))
    some_or found not_found

  unfoldable pub create : ChannelConfig → Exec Db (Unit {0})
  unfolding with_tx query insert_channel ◌>>=◌
  create c = with_tx env (do
    taken ← query env (λ db. any (has_name c.pool_id c.channel_type c.name) db.channels)
    require (not taken) conflict
    insert_channel c)

  unfoldable pub get : Text → Exec Db ChannelConfig
  unfolding query ◌>>=◌
  get id = do found ← query env (λ db. find channel_of id db.channels); some_or found not_found

  unfoldable pub list : Text → Exec Db (List ChannelConfig)
  unfolding query order_by
  list pool_id =
      query env
        (λ db. order_by by_type_and_name (select (λ c. text_eq c.pool_id pool_id) db.channels))

  unfoldable pub list_active : Text → Text → Exec Db (List ChannelConfig)
  unfolding query order_by
  list_active pool_id channel_type = query env (λ db.
      order_by by_name
        (select (λ c. is_type pool_id channel_type c && is_channel_active c) db.channels))

  unfoldable pub set_status : Text → Text → ℕ → Exec Db (Unit {0})
  unfolding exec
  set_status id status now =
      exec env
        (λ db. record db {
          channels =
              update (λ c. text_eq c.channel_id id)
                (λ c. record c { status = status; updated_at = now }) db.channels;
        })
        (λ db. tt)

  unfoldable pub delete : Text → Exec Db (Unit {0})
  unfolding exec
  delete id =
      exec env
        (λ db. record db { channels = select (λ c. not (text_eq c.channel_id id)) db.channels })
        (λ db. tt)
