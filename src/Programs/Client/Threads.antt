-- ===== src/Programs/Client/Threads.antt =====
-- The two threads of examples/client.cpp, which share the sender under a mutex, and its signal handler
-- on the main thread, where it can come at any point, the last `join` of `main` included. Each step is
-- what one thread does up to its next call of the mutex, the sender or `join`; `usleep` and the output
-- have no step, and a line has fewer than 2 ^ 31 bytes, as the `int` that counts them holds. What a
-- `join` does once the poll thread is done is left out.
pub mod Laws
pub mod Stops
pub mod Progress
use mprtplib.Prelude.{ℕ, Bool, true, false, ◌≡◌, ◌≢◌, List, [], ◌<◌, ◌^◌, length}
use mprtplib.Prelude.Int.{ℤ}
use mprtplib.Prelude.Result.{ok}
use mprtplib.Address.{Text}
use mprtplib.Double.{Double}
use mprtplib.Session.Poll.{Session, Rounds}
use mprtplib.Sender.{Sender, send_data}
use mprtplib.Sender.Cycle.{poll}

-- Where the poll thread stands: at the test of `stop_client`, at `sync.lock()`, at `cli.poll()`, at
-- `sync.unlock()`, or behind the loop.
pub data PollThread : Type 0 where
  checking : PollThread
  locking : PollThread
  polling : PollThread
  polled : PollThread
  finished : PollThread

-- Where the main thread stands: at `getline`, at `sync.lock()` and at `send_data` with a line, at
-- `sync.unlock()`, in `join` at the end of `main`, or in that of `signalHandler`; the last says whether
-- the thread holds the mutex.
pub data MainThread : Type 0 where
  reading : MainThread
  waiting : Text → MainThread
  sending : Text → MainThread
  sent : MainThread
  joining : MainThread
  interrupted : Bool → MainThread

-- Who holds `sync`.
pub data Holder : Type 0 where
  nobody : Holder
  poll_thread : Holder
  main_thread : Holder

pub record Client (W : Type 0) : Type 0 where
  pub cli : Session W (Sender W)
  pub stop_client : Bool
  pub sync : Holder
  pub poller : PollThread
  pub reader : MainThread

unfoldable pub holds_main : MainThread → Bool
holds_main reading = false
holds_main (waiting line) = false
holds_main (sending line) = true
holds_main sent = true
holds_main joining = false
holds_main (interrupted held) = held

unfoldable pub holds_poll : PollThread → Bool
holds_poll checking = false
holds_poll locking = false
holds_poll polling = true
holds_poll polled = true
holds_poll finished = false

-- The threads as `poll_thread` starts.
abbrev pub threads_of : {W : Type 0} → Session W (Sender W) → Client W
threads_of cli = record {
  cli = cli;
  stop_client = false;
  sync = nobody;
  poller = checking;
  reader = reading;
}

-- `signalHandler` on the main thread, up to its `join`.
abbrev pub signal_handler : {W : Type 0} → Client W → Client W
signal_handler c = record c { reader = interrupted (holds_main c.reader); stop_client = true }

module _ {W : Type 0} ⦃d : Double W⦄ where
  pub data Step : Client W → Client W → Type 0 where
    check :
        (c : Client W)
        → c.poller ≡ checking
        → c.stop_client ≡ false
        → Step c (record c { poller = locking })
    leave :
        (c : Client W)
        → c.poller ≡ checking
        → c.stop_client ≡ true
        → Step c (record c { poller = finished })
    lock_poll :
        (c : Client W)
        → c.poller ≡ locking
        → c.sync ≡ nobody
        → Step c (record c { poller = polling; sync = poll_thread })
    do_poll :
        (c : Client W) (rounds : ℕ → Rounds W) (ret : ℤ) (cli' : Session W (Sender W))
        → c.poller ≡ polling
        → poll rounds c.cli ≡ ok (ret, cli')
        → Step c (record c { poller = polled; cli = cli' })
    unlock_poll :
        (c : Client W) → c.poller ≡ polled → Step c (record c { poller = checking; sync = nobody })
    read_line :
        (c : Client W) (line : Text)
        → c.reader ≡ reading
        → line ≢ []
        → length line < 2 ^ 31
        → Step c (record c { reader = waiting line })
    read_end : (c : Client W) → c.reader ≡ reading → Step c (record c { reader = joining })
    lock_main :
        (c : Client W) (line : Text)
        → c.reader ≡ waiting line
        → c.sync ≡ nobody
        → Step c (record c { reader = sending line; sync = main_thread })
    do_send :
        (c : Client W) (line : Text) (whole : Bool) (s' : Sender W)
        → c.reader ≡ sending line
        → send_data line c.cli.object ≡ ok (whole, s')
        → Step c (record c { reader = sent; cli = record (c.cli) { object = s' } })
    unlock_main :
        (c : Client W) → c.reader ≡ sent → Step c (record c { reader = reading; sync = nobody })
    interrupt :
        (c : Client W) → ((held : Bool) → c.reader ≢ interrupted held) → Step c (signal_handler c)

  pub data Reach (start : Client W) : Client W → Type 0 where
    here : Reach start start
    next : {a b : Client W} → Reach start a → Step a b → Reach start b
