-- ===== src/System/Watch.antt =====
-- The watcher of the configuration file and its debouncing (src/config/reload.rs), beside the
-- other tasks. The watcher of the file system and the channel are the environment: every change of
-- the file is notified after it was made, as an event of one of the kinds.
pub mod Settles
use upstreamer.Common.{
  ℕ, suc, ◌+◌, ◌<◌, ◌≡◌, ◌≢◌, ◌⊎◌, Bool, true, false, ◌||◌, List, Option, none, some, Result, ok,
  if◌then◌else◌,
}
use upstreamer.External.{UrlOps, F64Ops}
use upstreamer.Config.{ProxyConfig, PathBuf}
use upstreamer.Config.Rules.{IsValid}
use upstreamer.Reload.{LoadError, reload}
use upstreamer.System.{System, Step, begins, finishes, checks, cleans, reloads, discovers}

-- The kinds of `notify::EventKind`; the callback sends a message for two of them.
pub data EventKind : Type 0 where
  any access create modify remove other : EventKind

unfoldable pub is_sent : EventKind → Bool
is_sent modify = true
is_sent create = true
is_sent _ = false

-- A file that is created or modified.
abbrev pub IsWritten : Option EventKind → Type 0
IsWritten (some create) = Unit
IsWritten (some modify) = Unit
IsWritten _ = ⊥

-- Where `watch_config` stands: waiting for a message, asleep for 500 ms, taking what has piled up
-- off the channel, or about to load the file.
pub data Phase : Type 0 where
  receiving sleeping draining loading : Phase

-- `mpsc::channel(16)`
abbrev pub capacity : ℕ
capacity = 16

-- The system with the file on the disk (what `load` would return for it), the callbacks that have
-- a message to send, the messages in the channel, and the phase of the watcher.
pub record Watch (Url F : Type 0) : Type 0 where
  pub system : System Url F
  pub disk : Result LoadError (ProxyConfig Url)
  pub unsent : ℕ
  pub pending : ℕ
  pub phase : Phase

module _ {Url F : Type 0} ⦃u : UrlOps Url⦄ ⦃f : F64Ops F⦄ where
  -- A step of another task than the watcher.
  abbrev pub IsOther : {s t : System Url F} → Step s t → Type 0
  IsOther (reloads state k8s exists loaded) = ⊥
  IsOther (begins state k8s req ip now draw) = Unit
  IsOther (finishes state k8s o latency answer) = Unit
  IsOther (checks state k8s client up down ts) = Unit
  IsOther (cleans state k8s now) = Unit
  IsOther (discovers state k8s svc) = Unit

  -- `exists` is what the file system answers of the directory of error pages.
  module _ (exists : PathBuf → Bool) where
    -- The watcher's own steps. A callback waits while the channel is full.
    pub data Own : Watch Url F → Watch Url F → Type 0 where
      sends :
          (w : Watch Url F) (n : ℕ)
          → w.unsent ≡ suc n
          → w.pending < capacity
          → Own w (record w { unsent = n; pending = suc w.pending })
      receives :
          (w : Watch Url F) (n : ℕ)
          → w.phase ≡ receiving
          → w.pending ≡ suc n
          → Own w (record w { pending = n; phase = sleeping })
      wakes : (w : Watch Url F) → w.phase ≡ sleeping → Own w (record w { phase = draining })
      drains :
          (w : Watch Url F) (n : ℕ)
          → w.phase ≡ draining
          → w.pending ≡ suc n
          → Own w (record w { pending = n })
      finds_none :
          (w : Watch Url F)
          → w.phase ≡ draining
          → w.pending ≡ 0
          → Own w (record w { phase = loading })
      loads :
          (w : Watch Url F)
          → w.phase ≡ loading
          → Own w (record w {
            system = (reload exists w.system.0 w.disk, w.system.1);
            phase = receiving;
          })

    -- The steps of the rest: someone changes the file, which the callback is told, and the other
    -- tasks go on.
    pub data World : Watch Url F → Watch Url F → Type 0 where
      writes :
          (w : Watch Url F) (disk : Result LoadError (ProxyConfig Url)) (kind : EventKind)
          → World w
              (record w { disk = disk; unsent = if is_sent kind then suc w.unsent else w.unsent })
      others :
          (w : Watch Url F) (t : System Url F) (step : Step w.system t)
          → IsOther step
          → World w (record w { system = t })

    -- The kind of the last change of the file, if there was one since the watcher started.
    abbrev pub last_change : {w v : Watch Url F} → World w v → Option EventKind → Option EventKind
    last_change (writes w disk kind) last = some kind
    last_change (others w t step apart) last = last

    -- The file's configuration, if it is a valid one, is in force.
    abbrev pub IsInForce : Watch Url F → Type 0
    IsInForce w = (c : ProxyConfig Url) → w.disk ≡ ok c → IsValid exists c → w.system.0.config ≡ c

    -- What can be come to from the start of the watcher, whatever the file then holds, with the
    -- kind of the last change since.
    pub data Watched : Watch Url F → Option EventKind → Type 0 where
      watches :
          (w : Watch Url F) → w.unsent ≡ 0 → w.pending ≡ 0 → w.phase ≡ receiving → Watched w none
      own :
          (w v : Watch Url F) (last : Option EventKind) → Watched w last → Own w v → Watched v last
      world :
          (w v : Watch Url F) (last : Option EventKind)
          → Watched w last
          → (step : World w v) → Watched v (last_change step last)

    pub data Owns : Watch Url F → Watch Url F → Type 0 where
      done : (w : Watch Url F) → Owns w w
      next : (w v x : Watch Url F) → Own w v → Owns v x → Owns w x

  abbrev pub AtRest : Watch Url F → Type 0
  AtRest w = (w.unsent ≡ 0) × (w.pending ≡ 0) × (w.phase ≡ receiving)
