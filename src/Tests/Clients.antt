-- ===== src/Tests/Clients.antt =====
-- The examples at concrete calls of a database.
use yellowdb.Prelude.{
  ◌≡◌, refl, subst, if◌then◌else◌, true, false, Option, none, some, List, [], ◌∷◌, map, arith,
}
use yellowdb.Errors.{ok, ok_inj}
use yellowdb.Text.{Key, Bytes}
use yellowdb.Text.Utf8.{encode, encode_char}
use yellowdb.Text.Order.{key_eq, key_lt}
use yellowdb.Dict.{Dict, lookup, insert, remove}
use yellowdb.Actions.{continue, ◌>>=◌}
use yellowdb.Serializer.KeyCache.{empty, encode_key, get_cached_key_bytes}
use yellowdb.Serializer.Struct.{pack}
use yellowdb.Serializer.Write.{serialize_record, compress_value}
use yellowdb.Memtable.Sorted.{insert_sorted}
use yellowdb.Memtable.Table
use yellowdb.Memtable.Table.{MemtableEntry}
use yellowdb.Cache.Defs as Cache
use yellowdb.Wal.Defs as Wal
use yellowdb.Wal.Defs.{WalFile}
use yellowdb.Wal.Recover.{recover, read_files}
use yellowdb.Database.Recovery.{open_database_lem}
use yellowdb.Platform.{Platform}
use yellowdb.Database.Source
use yellowdb.Database.State.{Database, check_open, validate_key, validate_value, get_timestamp}
use yellowdb.Database.Write.{
  set, delete, write_wal, change_memtable, store_memtable, put_in, put_cache, count_set,
  flush_when_full, compact_when_due,
}
use yellowdb.Database.Read.{get}
use yellowdb.Database.Open.{open_database, replay}
use yellowdb.Tests.Databases.{platform, clock}
use yellowdb.Examples.Json.{read_object, read_time, field, or_key_error}
use yellowdb.Database.Read.{ask_cache, ask, end_ask, answer, count_hit, count_miss, count_get}
use yellowdb.Database.Write.{count_delete}
use yellowdb.Examples.Creation.{session_of, get-create_session}
use yellowdb.Examples.Renewal.{get_session-renewed, get_session-expired}
use yellowdb.Examples.Prefix.{starts_with, with_prefix}
use yellowdb.Examples.SessionScans.{get_user_sessions}
use yellowdb.Examples.Listing.{Listed, none_listed, one_listed, sessions_of, get_user_sessions_lem}
use yellowdb.Examples.Store.{Store}
use yellowdb.Examples.Backing.{database_store, entries_of}
use yellowdb.Iterators.Defs.{scan}
use yellowdb.Compactor.Defs as Compactor
use yellowdb.Examples.SessionStore.{
  session_key, new_session, create_session, delete_session, is_expired, refresh, touched,
  get_session, end_get, check_time, prefix,
}
use yellowdb.Examples.SessionLaws.{
  Holds, LastAccess, after_read, new_session-LastAccess, create_session_lem,
}
use yellowdb.Tests.Environment.{environment}

-- room for a session
abbrev pub roomy : Platform
roomy = record platform { config = record platform.config { memtable_size = 4096 } }

abbrev pub store : Store
store = database_store roomy

abbrev pub empty_database : Database roomy
empty_database = open_database roomy [] empty 0

-- the token "t"
abbrev token : Key
token = 116 ∷ []

abbrev user : Key
user = 117 ∷ []

abbrev created : Database roomy
created = (create_session environment store 10 user none token 100 100 clock empty_database).1

create-run :
    create_session environment store 10 user none token 100 100 clock empty_database
    ≡ (ok token, created)
unfolding set check_open validate_key validate_value get_timestamp write_wal change_memtable
    store_memtable put_cache put_in count_set flush_when_full compact_when_due continue ◌>>=◌
    open_database replay recover read_files Source.fresh Source.put Source.is_full Table.new
    Table.put Table.is_full Table.old_bytes Table.entry_bytes encode_key encode encode_char
    insert_sorted lookup Wal.new Wal.write Wal.log_opened Wal.log_record Wal.end_write Wal.added
    Wal.add_entry Wal.open_new_wal_file Wal.with_new_file Wal.flush_batch
    Wal.get_latest_wal_sequence serialize_record get_cached_key_bytes compress_value pack Wal.join
    Wal.get_bytes Wal.clear Wal.write_handle Wal.sync_handle insert Cache.new Cache.put
    Cache.drop_key Cache.move_to_end Cache.evict key_eq create_session new_session
create-run = refl

pub empty_database-IsReady : store.IsReady empty_database
unfolding read_files
empty_database-IsReady =
    ((open_database_lem roomy [] empty 0 [] (omega arith) refl tt).0, unfold open_database in refl)

-- any write of that length has room
room :
    store.HasRoom
      (session_key token)
      (environment.dumps
        (environment.object (new_session environment store 10 token user 100 100 none)))
      false
      clock
      empty_database
unfolding set check_open validate_key validate_value get_timestamp write_wal change_memtable
    store_memtable put_cache put_in count_set flush_when_full compact_when_due continue ◌>>=◌
    open_database replay recover read_files Source.fresh Source.put Source.is_full Table.new
    Table.put Table.is_full Table.old_bytes Table.entry_bytes encode_key encode encode_char
    insert_sorted lookup Wal.new Wal.write Wal.log_opened Wal.log_record Wal.end_write Wal.added
    Wal.add_entry Wal.open_new_wal_file Wal.with_new_file Wal.flush_batch
    Wal.get_latest_wal_sequence serialize_record get_cached_key_bytes compress_value pack Wal.join
    Wal.get_bytes Wal.clear Wal.write_handle Wal.sync_handle insert Cache.new Cache.put
    Cache.drop_key Cache.move_to_end Cache.evict key_eq new_session
room = (λ n m h. subst (λ x. Source.is_full roomy x ≡ false) (ok_inj h) refl, omega arith)

abbrev session : Dict environment.Json
session = new_session environment store 10 token user 100 100 none

created_lem : store.IsReady created × Holds environment store 10 token session created
created_lem =
    let (_, r, h, _) =
      create_session_lem environment store 10 user none token 100 100 clock empty_database created
        token empty_database-IsReady room create-run in
    (r, h)

created_at : LastAccess environment store 10 session 100
created_at = new_session-LastAccess environment store 10 token user 100 100 none

abbrev renewed : Database roomy
renewed = (get_session environment store 10 token 200 201 clock created).1

renew-run :
    get_session environment store 10 token 200 201 clock created
    ≡ (ok (some (touched environment store 10 201 session)), renewed)
unfolding set check_open validate_key validate_value get_timestamp write_wal change_memtable
    store_memtable put_cache put_in count_set flush_when_full compact_when_due continue ◌>>=◌
    open_database replay recover read_files Source.fresh Source.put Source.is_full Table.new
    Table.put Table.is_full Table.old_bytes Table.entry_bytes encode_key encode encode_char
    insert_sorted lookup Wal.new Wal.write Wal.log_opened Wal.log_record Wal.end_write Wal.added
    Wal.add_entry Wal.open_new_wal_file Wal.with_new_file Wal.flush_batch
    Wal.get_latest_wal_sequence serialize_record get_cached_key_bytes compress_value pack Wal.join
    Wal.get_bytes Wal.clear Wal.write_handle Wal.sync_handle insert Cache.new Cache.put
    Cache.drop_key Cache.move_to_end Cache.evict key_eq create_session new_session get_session
    end_get check_time is_expired refresh delete_session delete Source.delete Table.delete
    count_delete get ask_cache ask end_ask answer count_hit count_miss count_get Cache.get
    read_object read_time field or_key_error remove
renew-run = refl

abbrev over : Database roomy
over = (get_session environment store 10 token 10000101 0 clock created).1

over-run : get_session environment store 10 token 10000101 0 clock created ≡ (ok none, over)
unfolding set check_open validate_key validate_value get_timestamp write_wal change_memtable
    store_memtable put_cache put_in count_set flush_when_full compact_when_due continue ◌>>=◌
    open_database replay recover read_files Source.fresh Source.put Source.is_full Table.new
    Table.put Table.is_full Table.old_bytes Table.entry_bytes encode_key encode encode_char
    insert_sorted lookup Wal.new Wal.write Wal.log_opened Wal.log_record Wal.end_write Wal.added
    Wal.add_entry Wal.open_new_wal_file Wal.with_new_file Wal.flush_batch
    Wal.get_latest_wal_sequence serialize_record get_cached_key_bytes compress_value pack Wal.join
    Wal.get_bytes Wal.clear Wal.write_handle Wal.sync_handle insert Cache.new Cache.put
    Cache.drop_key Cache.move_to_end Cache.evict key_eq create_session new_session get_session
    end_get check_time is_expired refresh delete_session delete Source.delete Table.delete
    count_delete get ask_cache ask end_ask answer count_hit count_miss count_get Cache.get
    read_object read_time field or_key_error remove
over-run = refl

room_to_renew :
    store.HasRoom
      (session_key token)
      (environment.dumps (environment.object (touched environment store 10 201 session)))
      false
      clock
      (after_read environment store 10 token created)
unfolding set check_open validate_key validate_value get_timestamp write_wal change_memtable
    store_memtable put_cache put_in count_set flush_when_full compact_when_due continue ◌>>=◌
    open_database replay recover read_files Source.fresh Source.put Source.is_full Table.new
    Table.put Table.is_full Table.old_bytes Table.entry_bytes encode_key encode encode_char
    insert_sorted lookup Wal.new Wal.write Wal.log_opened Wal.log_record Wal.end_write Wal.added
    Wal.add_entry Wal.open_new_wal_file Wal.with_new_file Wal.flush_batch
    Wal.get_latest_wal_sequence serialize_record get_cached_key_bytes compress_value pack Wal.join
    Wal.get_bytes Wal.clear Wal.write_handle Wal.sync_handle insert Cache.new Cache.put
    Cache.drop_key Cache.move_to_end Cache.evict key_eq create_session new_session get_session
    end_get check_time is_expired refresh delete_session delete Source.delete Table.delete
    count_delete get ask_cache ask end_ask answer count_hit count_miss count_get Cache.get
    read_object read_time field or_key_error remove
room_to_renew = (λ n m h. subst (λ x. Source.is_full roomy x ≡ false) (ok_inj h) refl, omega arith)

room_to_delete :
    store.HasRoom (session_key token) [] true clock (after_read environment store 10 token created)
unfolding set check_open validate_key validate_value get_timestamp write_wal change_memtable
    store_memtable put_cache put_in count_set flush_when_full compact_when_due continue ◌>>=◌
    open_database replay recover read_files Source.fresh Source.put Source.is_full Table.new
    Table.put Table.is_full Table.old_bytes Table.entry_bytes encode_key encode encode_char
    insert_sorted lookup Wal.new Wal.write Wal.log_opened Wal.log_record Wal.end_write Wal.added
    Wal.add_entry Wal.open_new_wal_file Wal.with_new_file Wal.flush_batch
    Wal.get_latest_wal_sequence serialize_record get_cached_key_bytes compress_value pack Wal.join
    Wal.get_bytes Wal.clear Wal.write_handle Wal.sync_handle insert Cache.new Cache.put
    Cache.drop_key Cache.move_to_end Cache.evict key_eq create_session new_session get_session
    end_get check_time is_expired refresh delete_session delete Source.delete Table.delete
    count_delete get ask_cache ask end_ask answer count_hit count_miss count_get Cache.get
    read_object read_time field or_key_error remove
room_to_delete = (λ n m h. subst (λ x. Source.is_full roomy x ≡ false) (ok_inj h) refl, omega arith)

room_of :
    store.HasRoom
      (session_key token)
      (environment.dumps
        (environment.object (session_of environment store 10 token user 100 100 none)))
      false
      clock
      empty_database
unfolding new_session
room_of = room

room_of_renewed :
    store.HasRoom
      (session_key token)
      (environment.dumps
        (environment.object (session_of environment store 10 token user 100 201 none)))
      false
      clock
      (after_read environment store 10 token created)
unfolding new_session insert key_eq
room_of_renewed = room_to_renew

get-create_session_example :
    (token ≡ token)
    × (some (touched environment store 10 201 session)
        ≡ some (session_of environment store 10 token user 100 201 none))
    × store.IsReady renewed
    × ((j : Key)
        → store.value_at j renewed ≡ (
            if key_eq (session_key token) j
            then ok (
                some (
                  environment.dumps
                    (environment.object (session_of environment store 10 token user 100 201 none))))
            else store.value_at j empty_database))
get-create_session_example =
    get-create_session environment store 10 user none token 100 100 200 201 clock clock
      empty_database created renewed token (some (touched environment store 10 201 session))
      empty_database-IsReady (omega arith) room_of create-run (omega arith) room_of_renewed
      renew-run

get_session-renewed_example :
    (some (touched environment store 10 201 session)
      ≡ some (touched environment store 10 201 session))
    × store.IsReady renewed
    × Holds environment store 10 token (touched environment store 10 201 session) renewed
    × LastAccess environment store 10 (touched environment store 10 201 session) 201
get_session-renewed_example =
    get_session-renewed environment store 10 token 200 201 clock created renewed session 100
      (some (touched environment store 10 201 session)) created_lem.0 (omega arith) created_lem.1
      created_at (omega arith) room_to_renew renew-run

get_session-expired_example :
    (◌≡◌ {A = Option (Dict environment.Json)} none none)
    × store.IsReady over
    × ((j : Key)
        → store.value_at j over
          ≡ (if key_eq (session_key token) j then ok none else store.value_at j created))
get_session-expired_example =
    get_session-expired environment store 10 token 10000101 0 clock created over session 100 none
      created_lem.0 (omega arith) created_lem.1 created_at (omega arith) room_to_delete over-run

abbrev entries : List (Key × Bytes)
entries = (session_key token, environment.dumps (environment.object session)) ∷ []

scan-created : store.scan (some prefix) created ≡ ok entries
unfolding set check_open validate_key validate_value get_timestamp write_wal change_memtable
    store_memtable put_cache put_in count_set flush_when_full compact_when_due continue ◌>>=◌
    open_database replay recover read_files Source.fresh Source.put Source.is_full Table.new
    Table.put Table.is_full Table.old_bytes Table.entry_bytes encode_key encode encode_char
    insert_sorted lookup Wal.new Wal.write Wal.log_opened Wal.log_record Wal.end_write Wal.added
    Wal.add_entry Wal.open_new_wal_file Wal.with_new_file Wal.flush_batch
    Wal.get_latest_wal_sequence serialize_record get_cached_key_bytes compress_value pack Wal.join
    Wal.get_bytes Wal.clear Wal.write_handle Wal.sync_handle insert Cache.new Cache.put
    Cache.drop_key Cache.move_to_end Cache.evict key_eq create_session new_session entries_of scan
    Source.get_all Table.get_all key_lt Compactor.new
scan-created = refl

entries-Listed : Listed environment store 10 (with_prefix prefix entries) ((token, user) ∷ [])
unfolding with_prefix starts_with lookup key_eq new_session
entries-Listed = one_listed {d = session} token user refl refl none_listed

get_user_sessions_lem_example : get_user_sessions environment store 10 user created ≡ (
  ok (map environment.string (sessions_of environment store 10 user ((token, user) ∷ []))),
  created,
)
get_user_sessions_lem_example =
    get_user_sessions_lem environment store 10 user created entries ((token, user) ∷ [])
      created_lem.0 scan-created entries-Listed
