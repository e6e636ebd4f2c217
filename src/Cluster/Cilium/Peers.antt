-- ===== src/Cluster/Cilium/Peers.antt =====
-- The peers of the cilium-bgp aspect.
use mathlib.Core.List.{append-nil, append_assoc}
use pok.Cluster.Cilium.{
  Dynamic, NodeConfig, BgpReport, string_at, list_at, is_established, down_peer, add_peer,
  add_peers, add_instances, add_nodes, aspect_cilium_bgp,
}
use pok.Cluster.Sorting.{
  count, count-append, IsSorted, less_bytes, sort_strings, sort_strings-IsSorted,
}
use pok.Cluster.Workloads.{msg}
use pok.Prelude.Bytes.{Bytes, bytes, bytes_key}
use pok.Prelude.Lists.{length, length-append}
use pok.Prelude.Maps.{Map}
use pok.Prelude.Tests.{◌==◌, Option-cases}
use pok.Prelude.{◌≡◌, ◌∙◌, refl, inl, inr, Bool, ◌&&◌, not, none, some, List, [], ◌∷◌, ◌++◌, arith}

module _ (D : Dynamic) where
  -- The peers that the objects hold, each with its node: what is no object is no peer.
  abbrev pub peers_in : Bytes → List D.Any → List (Bytes × Map Bytes D.Any)
  peers_in node [] = []
  peers_in node (pr ∷ peers) =
      elim (D.as_object pr) [ none ↦ [] | some pm ↦ (node, pm) ∷ [] ] ++ peers_in node peers

  abbrev pub peers_of_instances : Bytes → List D.Any → List (Bytes × Map Bytes D.Any)
  peers_of_instances node [] = []
  peers_of_instances node (inst ∷ instances) =
      elim (D.as_object inst) [ none ↦ [] | some im ↦ peers_in node (list_at D (bytes "peers") im) ]
      ++ peers_of_instances node instances

  abbrev pub peers_of_nodes : List (NodeConfig D) → List (Bytes × Map Bytes D.Any)
  peers_of_nodes [] = []
  peers_of_nodes (it ∷ items) = peers_of_instances it.name it.bgp_instances ++ peers_of_nodes items

  -- The session of the peer is established.
  abbrev pub is_up : Bytes × Map Bytes D.Any → Bool
  is_up (node, pm) = string_at D (bytes "peeringState") pm == bytes "established"

  -- How a peer shows that is down.
  abbrev pub line : Bytes × Map Bytes D.Any → Bytes
  line (node, pm) =
      node
      ++ bytes "->"
      ++ string_at D (bytes "peerAddress") pm
      ++ bytes "("
      ++ string_at D (bytes "peeringState") pm
      ++ bytes ")"

  -- The report counts these peers, and those among them that are up, and lists the others.
  pub record IsPartition (found : List (Bytes × Map Bytes D.Any)) (r : BgpReport D) : Type 0 where
    pub peers : r.peers ≡ length found
    pub established : r.established ≡ count is_up found
    pub down :
        (test : Bytes → Bool)
        → count test r.down ≡ count (λ p. not (is_up p) && test (line p)) found

  add_peer-IsPartition :
      (node : Bytes) (pm : Map Bytes D.Any) (found : List (Bytes × Map Bytes D.Any))
      (r : BgpReport D)
      → IsPartition found r
      → IsPartition (found ++ (node, pm) ∷ []) (add_peer D node pm r)
  unfolding add_peer is_established down_peer
  add_peer-IsPartition node pm found r h = record {
    peers = ground (arith, h.peers, length-append found ((node, pm) ∷ []));
    established = ground (arith, h.established, count-append is_up found ((node, pm) ∷ []));
    down = λ test. ground (
      arith,
      h.down test,
      count-append test r.down (line (node, pm) ∷ []),
      count-append (λ p. not (is_up p) && test (line p)) found ((node, pm) ∷ []),
    );
  }

  add_peers-IsPartition :
      (node : Bytes) (peers : List D.Any) (found : List (Bytes × Map Bytes D.Any)) (r : BgpReport D)
      → IsPartition found r
      → IsPartition (found ++ peers_in node peers) (add_peers D node peers r)
  unfolding add_peers
  add_peers-IsPartition node [] found r h = rw (append-nil found) h
  add_peers-IsPartition node (pr ∷ peers) found r h = elim (Option-cases (D.as_object pr)) [
    | inl e ↦ rw (e, add_peers) (add_peers-IsPartition node peers found r h)
    | inr (pm, e) ↦
        rw (e, add_peers)
          (rw (← append_assoc found ((node, pm) ∷ []) (peers_in node peers)) (
            add_peers-IsPartition node peers (found ++ (node, pm) ∷ []) (add_peer D node pm r)
              (add_peer-IsPartition node pm found r h)))
  ]

  add_instances-IsPartition :
      (node : Bytes) (instances : List D.Any) (found : List (Bytes × Map Bytes D.Any))
      (r : BgpReport D)
      → IsPartition found r
      → IsPartition (found ++ peers_of_instances node instances) (add_instances D node instances r)
  unfolding add_instances
  add_instances-IsPartition node [] found r h = rw (append-nil found) h
  add_instances-IsPartition node (inst ∷ instances) found r h =
      elim (Option-cases (D.as_object inst)) [
        | inl e ↦ rw (e, add_instances) (add_instances-IsPartition node instances found r h)
        | inr (im, e) ↦
            let peers = list_at D (bytes "peers") im in
            rw (e, add_instances)
              (rw (← append_assoc found (peers_in node peers) (peers_of_instances node instances)) (
                add_instances-IsPartition node instances (found ++ peers_in node peers)
                  (add_peers D node peers r) (add_peers-IsPartition node peers found r h)))
      ]

  add_nodes-IsPartition :
      (items : List (NodeConfig D)) (found : List (Bytes × Map Bytes D.Any)) (r : BgpReport D)
      → IsPartition found r
      → IsPartition (found ++ peers_of_nodes items) (add_nodes D items r)
  unfolding add_nodes
  add_nodes-IsPartition [] found r h = rw (append-nil found) h
  add_nodes-IsPartition (it ∷ items) found r h =
      let own = peers_of_instances it.name it.bgp_instances in
      rw (← append_assoc found own (peers_of_nodes items)) (
        add_nodes-IsPartition items (found ++ own) (add_instances D it.name it.bgp_instances r)
          (add_instances-IsPartition it.name it.bgp_instances found r h))

  -- Whatever the objects hold, the report counts the peers that they hold, and among them those whose
  -- peering state is "established"; it lists, in order, a line with node, address and state for each
  -- of the others, and nothing else.
  pub aspect_cilium_bgp-IsPartition :
      (items : List (NodeConfig D))
      → (r : BgpReport D) × ((aspect_cilium_bgp D (some items)
            ≡ some (record { aspect = bytes "cilium-bgp"; value = r }))
          × IsPartition (peers_of_nodes items) r
          × IsSorted less_bytes r.down)
  unfolding aspect_cilium_bgp msg
  aspect_cilium_bgp-IsPartition items =
      let start : BgpReport D = record { peers = 0; established = 0; down = [] } in
      let r = add_nodes D items start in
      let none_yet : IsPartition [] start = record {
        peers = refl;
        established = refl;
        down = λ test. refl;
      } in
      let told = add_nodes-IsPartition items [] start none_yet in
      (
        record r { down = sort_strings r.down },
        (
          refl,
          record {
            peers = told.peers;
            established = told.established;
            down = λ test. (sort_strings-IsSorted r.down).1 test ∙ told.down test;
          },
          (sort_strings-IsSorted r.down).0,
        ),
      )
