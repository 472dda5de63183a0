-- ===== src/JobStore/Redis/Memory.antt =====
-- A sorted set and hashes in memory, for runs on concrete inputs.
use relay_cerebro_infra.Base.{ℕ, String, Option, none, some, List, ◌≡◌, str_eq, if◌then◌else◌}
use relay_cerebro_infra.Base.Dict.{lookup, insert, remove, lookup-insert, lookup-remove}
use relay_cerebro_infra.JobStore.Hash.{JobHash}
use relay_cerebro_infra.JobStore.Redis.{SortedSet, Hashes, with_run_at, with_attempt}

abbrev changed_hash :
    (JobHash → JobHash)
    → String
    → Option JobHash
    → List (String × JobHash)
    → List (String × JobHash)
changed_hash f k none db = db
changed_hash f k (some h) db = insert k (f h) db

abbrev change_hash :
    (JobHash → JobHash) → String → List (String × JobHash) → List (String × JobHash)
change_hash f k db = changed_hash f k (lookup k db) db

pub lookup-change_hash :
    (f : JobHash → JobHash) (k j : String) (h : JobHash) (db : List (String × JobHash))
    → lookup k db ≡ some h
    → lookup j (change_hash f k db) ≡ (if str_eq k j then some (f h) else lookup j db)
lookup-change_hash f k j h db there = rw (there) (lookup-insert k j (f h) db)

abbrev pub memory_set : SortedSet
memory_set = record {
  Db = List (String × ℕ);
  zscore = lookup;
  zadd = λ n k db. insert k n db;
  zrem = remove;
  zscore-zadd = λ k j n db. lookup-insert k j n db;
  zscore-zrem = λ k j db. lookup-remove k j db;
}

abbrev pub memory_hashes : Hashes
memory_hashes = record {
  Db = List (String × JobHash);
  hgetall = lookup;
  hmset = insert;
  hset_run_at = λ k n db. change_hash (with_run_at n) k db;
  hincrby_attempts = λ k db. change_hash with_attempt k db;
  del = remove;
  hgetall-hmset = λ k j h db absent. lookup-insert k j h db;
  hgetall-hset_run_at = λ k j n h db there. lookup-change_hash (with_run_at n) k j h db there;
  hgetall-hincrby_attempts = λ k j h db there. lookup-change_hash with_attempt k j h db there;
  hgetall-del = λ k j db. lookup-remove k j db;
}
