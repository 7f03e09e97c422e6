-- ===== src/Fs/Room.antt =====
-- Room in the log for the writes of fs.c.
use osce.Prelude.{ℕ, suc, ◌+◌, ◌^◌, ◌<◌, ◌≤◌, ◌≡◌, ◌≢◌, refl, ◌==◌, if◌then◌else◌, done, arith}
use osce.Log.{Log, log_write, logsize, update, find_sector}
use osce.Fs.Store.{Bytes, Store, write_logged}

-- The log takes `k` more blocks.
pub record HasRoom (l : Log) (k : ℕ) : Type 0 where
  pub blocks : l.n + k ≤ logsize
  pub sectors : l.n + k < l.size
  pub open_ : (0 < l.outstanding) × (l.outstanding < 2 ^ 31)

pub log_write-HasRoom :
    (b k : ℕ) (l : Log) → HasRoom l (suc k) → (l' : Log) × (log_write b l ≡ done l') × HasRoom l' k
unfolding log_write
log_write-HasRoom b k l r = (
  record l { sector = update l.sector i b; n = if i == l.n then l.n + 1 else l.n },
  ground (arith, r.blocks, r.sectors, r.open_),
  record {
    blocks = ground (arith, r.blocks);
    sectors = ground (arith, r.sectors);
    open_ = r.open_;
  },
)
  where
    i : ℕ
    i = find_sector l.n 0 b l.sector

-- A store after one logged write.
pub record Wrote (s : ℕ) (b : Bytes) (k : ℕ) (st st' : Store) : Type 0 where
  pub at : st'.buf s ≡ b
  pub others : (j : ℕ) → j ≢ s → st'.buf j ≡ st.buf j
  pub room : HasRoom st'.log k

pub write_logged-Wrote :
    (s : ℕ) (b : Bytes) (k : ℕ) (st : Store)
    → HasRoom st.log (suc k)
    → (st' : Store) × (write_logged s b st ≡ done st') × Wrote s b k st st'
unfolding write_logged
write_logged-Wrote s b k st r =
    let (l', e, r') = log_write-HasRoom s k st.log r in
    (
      record { buf = λ j. if s == j then b else st.buf j; log = l' },
      rw e refl,
      record { at = ground arith; others = λ j ne. ground arith; room = r' },
    )
