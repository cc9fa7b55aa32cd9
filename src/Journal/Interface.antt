-- ===== src/Journal/Interface.antt =====
-- What the retry engine uses of a journal whose files can be written: the record of each
-- reservation, and the effect on it of `record` and `discard` of runcycles/journal.py.
use cycles_client_python.Prelude.{◌≡◌, String, Option, none, some, str_eq, if◌then◌else◌}
use cycles_client_python.Journal.Record.{PendingCommitRecord}

pub record Journal (J : Type 0) : Type 0 where
  pub find : J → String → Option PendingCommitRecord
  pub write : PendingCommitRecord → J → J
  pub discard : String → J → J
  pub find-write :
      (e : PendingCommitRecord) (s : J) (id : String)
      → find (write e s) id ≡ (if str_eq e.reservation_id id then some e else find s id)
  pub find-discard :
      (k : String) (s : J) (id : String)
      → find (discard k s) id ≡ (if str_eq k id then none else find s id)
