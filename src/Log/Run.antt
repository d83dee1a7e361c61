-- ===== src/Log/Run.antt =====
-- A start of the event log of log/log.c with the entries written after it.
use cctvmonitor.Base.{ℕ, List, [], ◌∷◌, ◌++◌, Bytes}
use cctvmonitor.Log.{Log, Clock, log_line, write_log}
use cctvmonitor.Log.Line.{IsPlain}
use cctvmonitor.Log.Keep.{kept}

-- A call of LOG_WriteLog.
pub record Write : Type 0 where
  pub clock : Clock
  pub type : ℕ
  pub desc : Bytes

-- LOG_WriteLog, one call after the other.
unfoldable pub write_all : Log → List Write → Log
unfolding write_log
write_all g [] = g
write_all g (w ∷ ws) = write_all (write_log g w.clock w.type w.desc).1 ws

-- The lines that are there after the calls.
unfoldable pub kept_all : List Bytes → List Write → List Bytes
kept_all ls [] = ls
kept_all ls (w ∷ ws) = kept_all (kept ls ++ log_line w.clock w.type w.desc ∷ []) ws

unfoldable pub AllPlain : List Write → Type 0
AllPlain [] = Unit
AllPlain (w ∷ ws) = IsPlain w.desc × AllPlain ws
