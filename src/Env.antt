-- ===== src/Env.antt =====
-- What the stores use of the operating system and of the lock on their directory: package os,
-- pkg/ioutils.AtomicWriteFile, the clock, crypto/rand, filepath, base64 and go-digest, and the Locker
-- interface of pkg/lockfile. The record has no laws: a theorem that needs one says which.
use containers_storage.Prelude.{ℕ, Bool, Option, Str}
use containers_storage.Prelude.Exec.{Exec}

pub data FileRead : Type 0 where
  contents : Str → FileRead
  missing : FileRead
  unreadable : FileRead

pub record Env : Type 1 where
  pub World : Type 0
  -- Locker: Locked, IsReadWrite, Touch (whose error the stores drop) and Modified
  pub locked : World → Bool
  pub read_write : World → Bool
  pub touch : World → World
  pub modified : Exec World Bool
  -- os.MkdirAll, ioutils.AtomicWriteFile, ioutil.ReadFile, os.RemoveAll
  pub mkdir_all : Str → Exec World (Unit {0})
  pub write_file : Str → Str → Exec World (Unit {0})
  pub read_file : World → Str → FileRead
  pub remove_all : Str → Exec World (Unit {0})
  -- time.Now, and 32 bytes of crypto/rand
  pub now : World → ℕ
  pub random : World → Option Str × World
  -- filepath.Join of two parts, filepath.Dir, base64.StdEncoding.EncodeToString
  pub join : Str → Str → Str
  pub dir_of : Str → Str
  pub base64 : Str → Str
  -- bytes of the first rune of a text that starts with a byte of 128 or more
  pub rune_size : Str → ℕ
  -- digest.Canonical.FromBytes, and whether Digest.Validate accepts
  pub digest_of : Str → Str
  pub valid_digest : Str → Bool
