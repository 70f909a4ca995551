-- ===== src/Programs/Network/Authentic.antt =====
-- What the server prints in any run of the two programs over the network.
use mathlib.Core.List.{Memᴰ}
use mathlib.Core.List.Memᴰ
use mprtplib.Prelude.{ℕ, ◌≡◌, ◌≢◌, refl, sym, ◌∙◌, true, List, [], ◌∷◌, ◌++◌, map, All, subst}
use mprtplib.Prelude.Result.{ok, Holds}
use mprtplib.Address.{Text}
use mprtplib.Double.{Double}
use mprtplib.World.{World}
use mprtplib.Interface.{Datagram}
use mprtplib.Session.Poll.{Session, Rounds}
use mprtplib.Session.Traffic.{All-weaken, Bring-weaken}
use mprtplib.Sender.Lists.{Route}
use mprtplib.Receiver.{Receiver}
use mprtplib.Programs.{Opening}
use mprtplib.Programs.Client.{ClientSettings, start_client}
use mprtplib.Programs.Client.Start.{client_routes, start_client-sent}
use mprtplib.Programs.Client.Threads.{here}
use mprtplib.Programs.Client.Threads.Laws.{IsRunning, Step-IsRunning, Reach-IsRunning, some_route}
use mprtplib.Programs.Server.{Line, ServerSettings, start_server}
use mprtplib.Programs.Server.Serving.{waiting-Unused, start_server-packets}
use mprtplib.Programs.Delivery.{whole}
use mprtplib.Programs.Network.{
  Carried, System, system_of, entered, Move, client_moves, server_passes, Run, begin, move,
}
use mprtplib.Programs.Network.Genuine.{Genuine, Prints}
use mprtplib.Programs.Network.Weaken.{IsHonest-weaken, Honest-weaken}
use mprtplib.Programs.Network.Honest.{
  Read, All-mem, IsHonest, Step-IsHonest, Honest, serve_once-Read,
}

-- The lines that the client has taken from its input.
abbrev Typed : List Text → Text → Type 0
Typed typed line = Memᴰ line typed

All-entered : (xs ys : List Text) → All (Typed (xs ++ ys)) xs
All-entered [] ys = tt
All-entered (x ∷ rest) ys =
    (Memᴰ.head refl, All-weaken _ _ rest (λ line m. Memᴰ.tail m) (All-entered rest ys))

All-append : {A : Type 0} (P : A → Type 0) (xs ys : List A) → All P xs → All P ys → All P (xs ++ ys)
All-append P [] ys h k = k
All-append P (x ∷ rest) ys h k = (h.0, All-append P rest ys h.1 k)

lines-Read :
    (typed : List Text) (lines : List Line)
    → All (Read (Typed typed)) lines
    → All (λ l. Memᴰ l (map whole typed)) lines
lines-Read typed lines all =
    All-weaken _ _ lines (λ l (line, m, e). Memᴰ.cast e (Memᴰ.map whole m)) all

same_session : {A : Type 0} {a b : A} → ok a ≡ ok b → a ≡ b
same_session e = cc

module _ {W : Type 0} ⦃d : Double W⦄ where
  -- The client is in order, and all that it has sent, all that waits at the server and all that is
  -- printed goes back to lines that it took.
  pub record IsAuthentic (routes : List (Route W)) (s : System W) : Type 0 where
    pub running : IsRunning routes s.client
    pub client_honest : IsHonest routes (Typed s.typed) s.client
    pub server_honest : Honest routes (Typed s.typed) s.server
    pub output : All (Read (Typed s.typed)) s.printed

module _ {W : Type 0} ⦃d : Double W⦄ (Net : List Datagram → (ℕ → Rounds W) → Type 0)
    (carried : (sent : List Datagram) (rounds : ℕ → Rounds W)
      → Net sent rounds
      → Carried sent rounds) where
  pub Move-IsAuthentic :
      (routes : List (Route W)) (a b : System W)
      → routes ≢ []
      → Move Net a b
      → IsAuthentic routes a
      → IsAuthentic routes b
  Move-IsAuthentic routes a b some (client_moves s c' step) h =
      let new = entered step in
      let more = λ (line : Text) (m : Memᴰ line s.typed). Memᴰ.append_right new m in
      let typed' = Typed (new ++ s.typed) in
      record {
        running = Step-IsRunning routes some s.client c' step h.running;
        client_honest =
            Step-IsHonest routes typed' s.client c' step some (All-entered new s.typed) h.running
              (IsHonest-weaken routes (Typed s.typed) typed' more s.client h.client_honest);
        server_honest = Honest-weaken routes (Typed s.typed) typed' more s.server h.server_honest;
        output = All-weaken _ _ s.printed (λ l (line, m, e). (line, more line m, e)) h.output;
      }
  Move-IsAuthentic routes a b some (server_passes s rounds lines server' brought ran) h =
      let typed' = Typed s.typed in
      let (read, honest) =
        subst (Holds (λ r. All (Read typed') r.0 × Honest routes typed' r.1)) ran (
          serve_once-Read routes typed' rounds s.server
            (Bring-weaken _ _ rounds
              (λ raw m.
                All-mem (Genuine routes typed') s.client.cli.object.world.sent raw.bytes
                  (h.client_honest).sent_genuine m)
              (carried s.client.cli.object.world.sent rounds brought))
            h.server_honest) in
      record {
        running = h.running;
        client_honest = h.client_honest;
        server_honest = honest;
        output = All-append (Read typed') s.printed lines h.output read;
      }

  pub Run-IsAuthentic :
      (routes : List (Route W)) (start s : System W)
      → routes ≢ []
      → Run Net start s
      → IsAuthentic routes start
      → IsAuthentic routes s
  Run-IsAuthentic routes start s some begin h = h
  Run-IsAuthentic routes start s some (move {a} {b} before step) h =
      Move-IsAuthentic routes a s some step (Run-IsAuthentic routes start a some before h)

module _ {W : Type 0} ⦃d : Double W⦄ where
  started-Honest :
      (routes : List (Route W)) (Lines : Text → Type 0) (inet_addr : Text → ℕ) (opens : ℕ → Opening)
      (o : ServerSettings) (w : World W) (server : Session W (Receiver W))
      → start_server inet_addr opens o w ≡ ok server
      → Honest routes Lines server
  started-Honest routes Lines inet_addr opens o w server started =
      let (s0, e, none_yet, unused, _, _) = start_server-packets inet_addr opens o w in
      subst (Honest routes Lines) (same_session (sym e ∙ started)) (record {
        waiting = waiting-Unused _ s0.interfaces unused;
        queued = subst (All (Prints Lines)) (sym none_yet) tt;
        kept = tt;
      })

  pub system_of-IsAuthentic :
      (inet_addr : Text → ℕ) (opens : ℕ → Opening) (o : ClientSettings) (w : World W)
      (inet_addr' : Text → ℕ) (opens' : ℕ → Opening) (o' : ServerSettings) (w' : World W)
      (server : Session W (Receiver W))
      → (start_client inet_addr opens o w).0 ≡ true
      → w.sent ≡ []
      → start_server inet_addr' opens' o' w' ≡ ok server
      → let cli = (start_client inet_addr opens o w).1 in
        IsAuthentic (client_routes inet_addr o cli.interfaces) (system_of cli server)
  system_of-IsAuthentic inet_addr opens o w inet_addr' opens' o' w' server connected silent
        started =
      let cli = (start_client inet_addr opens o w).1 in
      let routes = client_routes inet_addr o cli.interfaces in
      let unsent = start_client-sent inet_addr opens o w ∙ silent in
      record {
        running = Reach-IsRunning inet_addr opens o w _ connected here;
        client_honest = record {
          held = tt;
          sent_genuine = subst (All (λ out. Genuine routes (Typed []) out.bytes)) (sym unsent) tt;
        };
        server_honest = started-Honest routes (Typed []) inet_addr' opens' o' w' server started;
        output = tt;
      }

  -- Both programs have started, the client is connected and nothing was sent before. Then whatever the
  -- network does to the datagrams short of altering or inventing one, and however the threads and the
  -- passes of the server interleave, each line that the server has printed is one that the client has
  -- taken from its input, with its length and all of its bytes.
  pub Run-printed :
      (inet_addr : Text → ℕ) (opens : ℕ → Opening) (o : ClientSettings) (w : World W)
      (inet_addr' : Text → ℕ) (opens' : ℕ → Opening) (o' : ServerSettings) (w' : World W)
      (server : Session W (Receiver W)) (s : System W)
      → (start_client inet_addr opens o w).0 ≡ true
      → w.sent ≡ []
      → start_server inet_addr' opens' o' w' ≡ ok server
      → Run Carried (system_of (start_client inet_addr opens o w).1 server) s
      → All (λ l. Memᴰ l (map whole s.typed)) s.printed
  Run-printed inet_addr opens o w inet_addr' opens' o' w' server s connected silent started run =
      let cli = (start_client inet_addr opens o w).1 in
      let routes = client_routes inet_addr o cli.interfaces in
      lines-Read s.typed s.printed
        (Run-IsAuthentic Carried (λ sent rounds c. c) routes (system_of cli server) s
          (some_route inet_addr opens o w connected) run
          (system_of-IsAuthentic inet_addr opens o w inet_addr' opens' o' w' server connected silent
            started)).output
