-- ===== src/Programs/Network/Returns.antt =====
-- That the loop of examples/server.cpp always goes on to its next pass, on the datagrams of
-- examples/client.cpp.
use mprtplib.Prelude.{
  ℕ, suc, ◌^◌, ◌<◌, ◌≤◌, ◌≡◌, ap, sym, ◌∙◌, arith, true, List, [], All, length, subst,
}
use mprtplib.Prelude.Result.{ok, Ends-value}
use mprtplib.Address.{Text}
use mprtplib.Double.{Double}
use mprtplib.World.{World}
use mprtplib.Session.Poll.{Session, Rounds}
use mprtplib.Session.Traffic.{Carries}
use mprtplib.Sender.Lists.{Route, length-map-route}
use mprtplib.Sender.Routes.{length-numbered, paths_of}
use mprtplib.Receiver.{Receiver}
use mprtplib.Source.Returns.{IsReady}
use mprtplib.Receiver.Invariant.{IsOrdered}
use mprtplib.Receiver.Returns.{IsServing}
use mprtplib.Programs.{Opening}
use mprtplib.Programs.Client.{ClientSettings, start_client, destinations, is_path_valid}
use mprtplib.Programs.Client.Start.{client_routes, start_client-IsSound}
use mprtplib.Programs.Client.Threads.Laws.{some_route}
use mprtplib.Programs.Server.{Line, ServerSettings, start_server, serve_once}
use mprtplib.Programs.Server.Serving.{waiting-Unused, start_server-packets}
use mprtplib.Programs.Network.{Directed, System, system_of, Run}
use mprtplib.Programs.Network.Authentic.{system_of-IsAuthentic}
use mprtplib.Programs.Network.Datagrams.{Proper}
use mprtplib.Programs.Network.Passes.{
  numbered-IsNumber, pass-IsUp, Run-Directed-IsAuthentic, Run-IsUp,
}

same_start : {A : Type 0} {a b : A} → ok a ≡ ok b → a ≡ b
same_start e = cc

new_server-IsServing : {W : Type 0} (n : ℕ) (r : Receiver W) → r.sources ≡ [] → IsServing n r
new_server-IsServing n r none_yet = record {
  ordered = subst IsOrdered (sym none_yet) (record { rises = tt; placed = tt });
  ready = subst (All (λ entry. IsReady n entry.1)) (sym none_yet) tt;
}

module _ {W : Type 0} ⦃d : Double W⦄ where
  started-IsUp :
      (routes : List (Route W)) (n : ℕ) (inet_addr : Text → ℕ) (opens : ℕ → Opening)
      (o : ServerSettings) (w : World W) (server : Session W (Receiver W))
      → start_server inet_addr opens o w ≡ ok server
      → Carries (Proper routes) (λ pkt. Unit {0}) (IsServing n) server
  started-IsUp routes n inet_addr opens o w server started =
      let (s0, e, none_yet, unused, no_sources, _) = start_server-packets inet_addr opens o w in
      subst (Carries (Proper routes) (λ pkt. Unit {0}) (IsServing n)) (same_start (sym e ∙ started))
        (record {
          waiting = waiting-Unused (Proper routes) s0.interfaces unused;
          queued = subst (All (λ pkt. Unit {0})) (sym none_yet) tt;
          kept = new_server-IsServing n s0.object no_sources;
        })

  -- Both programs have started, the client is connected and has at most 1819 subflows, and nothing was
  -- sent before; a conversion to `uint32_t` is taken to be in the range of that type. The network may
  -- lose, repeat, delay and reorder the client's datagrams, and bring them under any sender address,
  -- but it brings each to the kind of socket that it was sent to. Then the next pass of the server's
  -- loop, after any steps of the two programs, returns: it reads nothing outside a buffer, and each of
  -- its loops comes to an end.
  pub Run-serve_once :
      (inet_addr : Text → ℕ) (opens : ℕ → Opening) (o : ClientSettings) (w : World W)
      (inet_addr' : Text → ℕ) (opens' : ℕ → Opening) (o' : ServerSettings) (w' : World W)
      (server : Session W (Receiver W)) (s : System W) (rounds : ℕ → Rounds W)
      → ((x : W) → d.to_uint32 x < 2 ^ 32)
      → (start_client inet_addr opens o w).0 ≡ true
      → w.sent ≡ []
      → length (start_client inet_addr opens o w).1.object.subflows ≤ 1819
      → start_server inet_addr' opens' o' w' ≡ ok server
      → Run Directed (system_of (start_client inet_addr opens o w).1 server) s
      → Directed s.client.cli.object.world.sent rounds
      → (lines : List Line) × (server' : Session W (Receiver W)) × (serve_once rounds s.server
          ≡ ok (lines, server'))
  Run-serve_once inet_addr opens o w inet_addr' opens' o' w' server s rounds range32 connected
        silent few started run brought =
      let cli = (start_client inet_addr opens o w).1 in
      let routes = client_routes inet_addr o cli.interfaces in
      let ps =
        paths_of is_path_valid cli.interfaces
          (destinations inet_addr o.remote_ifaces o.remote_port) in
      let (sound, _) = start_client-IsSound inet_addr opens o w connected in
      let some = some_route inet_addr opens o w connected in
      let count : length routes ≡ length cli.object.subflows =
        ap length (sym sound.same_routes) ∙ length-map-route cli.object.subflows in
      let n = suc (length routes) in
      let few' : n ≤ 1820 = omega (arith, few, count) in
      let fewer : length routes ≤ 2046 = omega (arith, few, count) in
      let numbers =
        numbered-IsNumber n 1 ps (λ e. cc) (omega (arith, length-numbered 1 ps))
          (omega (arith, few')) in
      let h =
        system_of-IsAuthentic inet_addr opens o w inet_addr' opens' o' w' server connected silent
          started in
      let up = started-IsUp routes n inet_addr' opens' o' w' server started in
      let (r, ran, _) = Ends-value _ (serve_once rounds s.server) (
        pass-IsUp range32 n routes some few' fewer numbers s rounds
          (Run-Directed-IsAuthentic range32 n routes some few' fewer numbers _ s run h)
          (Run-IsUp range32 n routes some few' fewer numbers _ s run h up) brought) in
      (r.0, r.1, ran)
