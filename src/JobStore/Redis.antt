-- ===== src/JobStore/Redis.antt =====
-- src/services/jobStore.js, Redis backend: a job is a member of a sorted set, under its time, and a
-- hash. Redis itself is two interfaces with the documented laws of the commands that the code sends,
-- stated where they are sent; each command is served. Hash has the fields of the hash.
pub mod Refine
pub mod Memory
use relay_cerebro_infra.Base.{
  ℕ, ◌+◌, String, Bool, true, false, Option, none, some, List, [], ◌∷◌, ◌≡◌, str_eq, if◌then◌else◌,
}
use relay_cerebro_infra.JobStore.{Job, attempts_of}
use relay_cerebro_infra.JobStore.Hash.{JobHash, to_hash, job_of_hash}

-- ZADD, ZREM and the score of a member.
pub record SortedSet : Type 1 where
  pub Db : Type 0
  pub zscore : String → Db → Option ℕ
  pub zadd : ℕ → String → Db → Db
  pub zrem : String → Db → Db
  pub zscore-zadd :
      (k j : String) (n : ℕ) (db : Db)
      → zscore j (zadd n k db) ≡ (if str_eq k j then some n else zscore j db)
  pub zscore-zrem :
      (k j : String) (db : Db) → zscore j (zrem k db) ≡ (if str_eq k j then none else zscore j db)

abbrev pub with_run_at : ℕ → JobHash → JobHash
with_run_at n h = record h { run_at = n }

abbrev pub with_attempt : JobHash → JobHash
with_attempt h = record h { attempts = some (attempts_of h.attempts + 1) }

-- HGETALL (`none` for the empty hash), HMSET of a new hash, HSET of `runAt` and HINCRBY of `attempts`
-- by 1 in a hash that is there, and DEL.
pub record Hashes : Type 1 where
  pub Db : Type 0
  pub hgetall : String → Db → Option JobHash
  pub hmset : String → JobHash → Db → Db
  pub hset_run_at : String → ℕ → Db → Db
  pub hincrby_attempts : String → Db → Db
  pub del : String → Db → Db
  pub hgetall-hmset :
      (k j : String) (h : JobHash) (db : Db)
      → hgetall k db ≡ none
      → hgetall j (hmset k h db) ≡ (if str_eq k j then some h else hgetall j db)
  pub hgetall-hset_run_at :
      (k j : String) (n : ℕ) (h : JobHash) (db : Db)
      → hgetall k db ≡ some h
      → hgetall j (hset_run_at k n db)
        ≡ (if str_eq k j then some (with_run_at n h) else hgetall j db)
  pub hgetall-hincrby_attempts :
      (k j : String) (h : JobHash) (db : Db)
      → hgetall k db ≡ some h
      → hgetall j (hincrby_attempts k db)
        ≡ (if str_eq k j then some (with_attempt h) else hgetall j db)
  pub hgetall-del :
      (k j : String) (db : Db) → hgetall j (del k db) ≡ (if str_eq k j then none else hgetall j db)

module _ (Z : SortedSet) (H : Hashes) where
  pub record Store : Type 0 where
    pub jobs_zset : Z.Db
    pub job_hashes : H.Db

  module _ {E : Type 0} where
    unfoldable pub redis_add_job : ℕ → Job E → Store → Store
    unfolding to_hash
    redis_add_job now job s = record {
      jobs_zset = Z.zadd job.run_at job.id s.jobs_zset;
      job_hashes = H.hmset job.id (to_hash now job) s.job_hashes;
    }

    abbrev pub read_hash : String → Option JobHash → Option (Job E)
    read_hash job_id none = none
    read_hash job_id (some h) = some (job_of_hash E job_id h)

    unfoldable pub redis_get_job_by_id : String → Store → Option (Job E)
    unfolding job_of_hash
    redis_get_job_by_id job_id s = read_hash job_id (H.hgetall job_id s.job_hashes)

  unfoldable pub redis_remove_job_by_id : String → Store → Store
  redis_remove_job_by_id job_id s = record {
    jobs_zset = Z.zrem job_id s.jobs_zset;
    job_hashes = H.del job_id s.job_hashes;
  }

  unfoldable pub redis_increment_job_attempts : String → Store → Store
  redis_increment_job_attempts job_id s = record s {
    job_hashes = H.hincrby_attempts job_id s.job_hashes;
  }

  unfoldable pub redis_reschedule_job : String → ℕ → Store → Store
  redis_reschedule_job job_id next_run_at s = record {
    jobs_zset = Z.zadd next_run_at job_id s.jobs_zset;
    job_hashes = H.hset_run_at job_id next_run_at s.job_hashes;
  }
