-- ===== src/Sender/Routes.antt =====
-- The subflows that `sender::connect` (src/mprtp_sender.cpp) makes.
use mprtplib.Prelude.{
  ℕ, suc, ◌+◌, ◌%◌, ◌^◌, ◌<◌, ◌≡◌, ◌≢◌, refl, ap, sym, ◌∙◌, arith, Bool, true, false, List, [], ◌∷◌,
  ◌++◌, map, subst, All, ◌==◌, length, not, if◌then◌else◌, append-nil, append_assoc,
}
use mprtplib.Address.{Endpoint, Address}
use mprtplib.Double.{Double}
use mprtplib.Interface.{Interface, get_address}
use mprtplib.Stat.{u32}
use mprtplib.Subflow.{Subflow, new_subflow}
use mprtplib.World.{World, take_random}
use mprtplib.Sender.{Sender, new_sender}
use mprtplib.Sender.Connect.{connect_interface, connect_loop, connect}
use mprtplib.Sender.Lists.{length-map-route, Route, route, IsSoundSubflow, total}
use mprtplib.Sender.Steady.{IsSound}

module _ {W : Type 0} where
  -- The pairs that are paths: interface by interface, each with the addresses in order.
  abbrev pub paths_from :
      (Endpoint → Endpoint → Bool) → Interface W → Address → List (Interface W × Endpoint)
  paths_from is_path_valid iface [] = []
  paths_from is_path_valid iface (addr ∷ rest) =
      let later = paths_from is_path_valid iface rest in
      if is_path_valid (get_address iface) addr then (iface, addr) ∷ later else later

  abbrev pub paths_of :
      (Endpoint → Endpoint → Bool) → List (Interface W) → Address → List (Interface W × Endpoint)
  paths_of is_path_valid [] dest = []
  paths_of is_path_valid (iface ∷ rest) dest =
      paths_from is_path_valid iface dest ++ paths_of is_path_valid rest dest

  -- Numbered one after the other from `id` on, on 16 bits.
  abbrev pub numbered : (id : ℕ) → List (Interface W × Endpoint) → List (Route W)
  numbered id [] = []
  numbered id ((iface, addr) ∷ rest) = (id, addr, iface) ∷ numbered ((id + 1) % 65536) rest

  abbrev number_after : (id : ℕ) → List (Interface W × Endpoint) → ℕ
  number_after id [] = id
  number_after id (pair ∷ rest) = number_after ((id + 1) % 65536) rest

  numbered-append :
      (id : ℕ) (xs ys : List (Interface W × Endpoint))
      → numbered id (xs ++ ys) ≡ numbered id xs ++ numbered (number_after id xs) ys
  numbered-append id [] ys = refl
  numbered-append id ((iface, addr) ∷ xs) ys =
      ap (λ rs. (id, addr, iface) ∷ rs) (numbered-append ((id + 1) % 65536) xs ys)

  pub length-numbered :
      (id : ℕ) (ps : List (Interface W × Endpoint)) → length (numbered id ps) ≡ length ps
  length-numbered id [] = refl
  length-numbered id (pair ∷ rest) = ap suc (length-numbered ((id + 1) % 65536) rest)

  All-append :
      (P : Subflow W → Type 0) (xs ys : List (Subflow W)) → All P xs → All P ys → All P (xs ++ ys)
  All-append P [] ys h k = k
  All-append P (x ∷ xs) ys h k = (h.0, All-append P xs ys h.1 k)

  total-append :
      (f : Subflow W → ℕ) (xs ys : List (Subflow W)) → total f (xs ++ ys) ≡ total f xs + total f ys
  total-append f [] ys = omega arith
  total-append f (x ∷ xs) ys = omega (arith, total-append f xs ys)

  map-append {ℓ} :
      {B : Type ℓ} (f : Subflow W → B) (xs ys : List (Subflow W))
      → map f (xs ++ ys) ≡ map f xs ++ map f ys
  map-append f [] ys = refl
  map-append f (x ∷ xs) ys = ap (λ zs. f x ∷ zs) (map-append f xs ys)

module _ {W : Type 0} ⦃d : Double W⦄ where
  -- A sound sender whose next subflow has the number `next`.
  record IsGrowing (routes : List (Route W)) (ssrc next : ℕ) (s : Sender W) : Type 0 where
    sound : IsSound routes ssrc s
    next_is : s.next_subflow_id ≡ next
    next_fits : next < 2 ^ 16

  -- The sender after one more subflow.
  abbrev with_subflow : Interface W → Endpoint → Sender W → Sender W
  with_subflow iface addr s =
      let (random, w) = take_random s.world in
      record s {
        next_subflow_id = (s.next_subflow_id + 1) % 65536;
        subflows = s.subflows ++ (new_subflow random s.next_subflow_id iface addr ∷ []);
        world = w;
      }

  with_subflow-IsGrowing :
      (routes : List (Route W)) (ssrc next : ℕ) (iface : Interface W) (addr : Endpoint)
      (s : Sender W)
      → IsGrowing routes ssrc next s
      → IsGrowing
          (routes ++ ((next, addr, iface) ∷ []))
          ssrc
          ((next + 1) % 65536)
          (with_subflow iface addr s)
  unfolding new_subflow
  with_subflow-IsGrowing routes ssrc next iface addr s h =
      let new : Subflow W = new_subflow (take_random s.world).0 s.next_subflow_id iface addr in
      record {
        sound = record {
          sequence_fits = h.sound.sequence_fits;
          timestamp_fits = h.sound.timestamp_fits;
          subflows_sound = All-append IsSoundSubflow s.subflows (new ∷ []) h.sound.subflows_sound (
            record {
              id_fits = omega (arith, h.next_is, h.next_fits);
              sequence_fits = omega arith;
              packets_fit = omega arith;
              octets_fit = omega arith;
              congestion_fits = omega arith;
            },
            tt,
          );
          packets_add_up =
              h.sound.packets_add_up
              ∙ ap u32 (omega (arith, total-append (λ sf. sf.packet_count) s.subflows (new ∷ [])));
          octets_add_up =
              h.sound.octets_add_up
              ∙ ap u32 (omega (arith, total-append (λ sf. sf.octet_count) s.subflows (new ∷ [])));
          same_routes =
              map-append route s.subflows (new ∷ [])
              ∙ ap (λ rs. rs ++ (route new ∷ [])) h.sound.same_routes
              ∙ ap (λ id. routes ++ ((id, addr, iface) ∷ [])) h.next_is;
          same_ssrc = h.sound.same_ssrc;
        };
        next_is = ap (λ id. (id + 1) % 65536) h.next_is;
        next_fits = omega arith;
      }

  connect_interface-IsGrowing :
      (is_path_valid : Endpoint → Endpoint → Bool) (routes : List (Route W)) (ssrc next : ℕ)
      (iface : Interface W) (dest : Address) (s : Sender W)
      → IsGrowing routes ssrc next s
      → let ps = paths_from is_path_valid iface dest in
        IsGrowing
          (routes ++ numbered next ps)
          ssrc
          (number_after next ps)
          (connect_interface is_path_valid iface dest s)
  unfolding connect_interface
  connect_interface-IsGrowing is_path_valid routes ssrc next iface [] s h =
      subst (λ rs. IsGrowing rs ssrc next s) (sym (append-nil routes)) h
  connect_interface-IsGrowing is_path_valid routes ssrc next iface (addr ∷ rest) s h =
      grow (is_path_valid (get_address iface) addr) (λ routes' next' s'.
        connect_interface-IsGrowing is_path_valid routes' ssrc next' iface rest s')
    where
      later : List (Interface W × Endpoint)
      later = paths_from is_path_valid iface rest

      grow :
          (valid : Bool)
          → ((routes' : List (Route W)) (next' : ℕ) (s' : Sender W)
              → IsGrowing routes' ssrc next' s'
              → IsGrowing
                  (routes' ++ numbered next' later)
                  ssrc
                  (number_after next' later)
                  (connect_interface is_path_valid iface rest s'))
          → let ps = if valid then (iface, addr) ∷ later else later in
            IsGrowing (routes ++ numbered next ps) ssrc (number_after next ps) (
              connect_interface is_path_valid iface rest
                (if valid then with_subflow iface addr s else s))
      grow false ih = ih routes next s h
      grow true ih =
          let next' = (next + 1) % 65536 in
          let s' = with_subflow iface addr s in
          subst
            (λ rs.
              IsGrowing rs ssrc (number_after next' later)
                (connect_interface is_path_valid iface rest s'))
            (append_assoc routes ((next, addr, iface) ∷ []) (numbered next' later))
            (ih (routes ++ ((next, addr, iface) ∷ [])) next' s'
              (with_subflow-IsGrowing routes ssrc next iface addr s h))

  connect_loop-IsGrowing :
      (is_path_valid : Endpoint → Endpoint → Bool) (ifaces : List (Interface W)) (dest : Address)
      (routes : List (Route W)) (ssrc next : ℕ) (s : Sender W)
      → IsGrowing routes ssrc next s
      → IsSound
          (routes ++ numbered next (paths_of is_path_valid ifaces dest))
          ssrc
          (connect_loop is_path_valid ifaces dest s)
  unfolding connect_loop
  connect_loop-IsGrowing is_path_valid [] dest routes ssrc next s h =
      subst (λ rs. IsSound rs ssrc s) (sym (append-nil routes)) h.sound
  connect_loop-IsGrowing is_path_valid (iface ∷ rest) dest routes ssrc next s h =
      let ps = paths_from is_path_valid iface dest in
      let qs = paths_of is_path_valid rest dest in
      subst (λ rs. IsSound rs ssrc (connect_loop is_path_valid (iface ∷ rest) dest s))
        (append_assoc routes (numbered next ps) _
          ∙ ap (λ rs. routes ++ rs) (sym (numbered-append next ps qs)))
        (connect_loop-IsGrowing is_path_valid rest dest _ ssrc _ _
          (connect_interface-IsGrowing is_path_valid routes ssrc next iface dest s h))

  new_sender-IsGrowing :
      (timestamp_unit : W) (w : World W) (ssrc : ℕ) (dest : Address)
      → IsGrowing [] ssrc 1 (record (new_sender timestamp_unit w) { ssrc = ssrc; dest_addr = dest })
  unfolding new_sender
  new_sender-IsGrowing timestamp_unit w ssrc dest = record {
    sound = record {
      sequence_fits = omega arith;
      timestamp_fits = omega arith;
      subflows_sound = tt;
      packets_add_up = refl;
      octets_add_up = refl;
      same_routes = refl;
      same_ssrc = refl;
    };
    next_is = refl;
    next_fits = omega arith;
  }

  -- `connect` of a new sender with an interface leaves a sound sender under the SSRC. Its subflows are
  -- the pairs of an interface and an address that are paths, interface by interface and numbered from 1
  -- on in 16 bits, and the result says whether there are any.
  pub connect-IsSound :
      (is_path_valid : Endpoint → Endpoint → Bool) (ifaces : List (Interface W)) (ssrc : ℕ)
      (dest : Address) (timestamp_unit : W) (w : World W)
      → ifaces ≢ []
      → let (connected, s) = connect is_path_valid ifaces ssrc dest (new_sender timestamp_unit w) in
        let ps = paths_of is_path_valid ifaces dest in
        IsSound (numbered 1 ps) ssrc s × (connected ≡ not (length ps == 0))
  unfolding connect
  connect-IsSound is_path_valid [] ssrc dest timestamp_unit w n = absurd (n refl)
  connect-IsSound is_path_valid (iface ∷ rest) ssrc dest timestamp_unit w n =
      let sound =
        connect_loop-IsGrowing is_path_valid (iface ∷ rest) dest [] ssrc 1 _
          (new_sender-IsGrowing timestamp_unit w ssrc dest) in
      (
        sound,
        ap (λ k. not (k == 0))
            (sym (length-map-route _) ∙ ap length sound.same_routes ∙ length-numbered 1 _),
      )
