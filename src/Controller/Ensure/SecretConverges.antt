-- ===== src/Controller/Ensure/SecretConverges.antt =====
-- The Secret holds what the builder made, behind its stage
-- (reconcileSecret of internal/controller/kubenova_controller.go).
use kube_nova_operator.Api.{KubeNova}
use kube_nova_operator.Builder.Secret.{build_secret, secret_data}
use kube_nova_operator.Controller.Action.{on_reply, pure, ◌>>=◌}
use kube_nova_operator.Controller.Action.Ensures.{
  Ensures, Ensures-along, Ensures-bind, Ensures-call, Ensures-nothing, Ensures-pure, Ensures-self,
  Ensures-weaker,
}
use kube_nova_operator.Controller.Cluster.{Cluster}
use kube_nova_operator.Controller.Ensure.{create_or_update, own}
use kube_nova_operator.Controller.Ensure.Converges.{KeepsNames, Owned, own-names, same_entries}
use kube_nova_operator.Controller.Ensure.Laws.{IsStored, StoreLaws, create_or_update-Stored}
use kube_nova_operator.Controller.Nodes.{choose_node_ip, get_node_ip, get_web_node_port}
use kube_nova_operator.Controller.Resources.{entries_equal, reconcile_secret, texts_of}
use kube_nova_operator.Kube.{Node, Secret}
use kube_nova_operator.Prelude.{List, String, ap, refl, ◌≡◌}
use kube_nova_operator.Prelude.Int.{ℤ}
use kube_nova_operator.Prelude.MapLaws.{HasDistinctKeys, has_key_once-HasDistinctKeys}
use kube_nova_operator.Prelude.Results.{Reply, got, refused}

-- Without this the list would not be the map that the code fills by assignments.
pub secret_data-HasDistinctKeys :
    (kn : KubeNova) (ip : String) (port : ℤ) → HasDistinctKeys (secret_data kn ip port)
unfolding secret_data
secret_data-HasDistinctKeys kn ip port = has_key_once-HasDistinctKeys (secret_data kn ip port) refl

module _ (c : Cluster) (keeps : KeepsNames c)
    (laws : StoreLaws c.World c.ApiError Secret (λ a. a.metadata) (λ a. a.entries) c.secrets) where
  -- The address that getNodeIP takes from the answer to its list of the nodes.
  abbrev pub ip_of : Reply c.ApiError (List Node) → String
  ip_of (got ns) = choose_node_ip ns
  ip_of (refused _) = ""

  -- The stored Secret has the data of `kn` with this address of a node.
  abbrev pub HoldsSecret : KubeNova → String → c.World → Type 0
  HoldsSecret kn ip w =
      (port : ℤ) × IsStored c _ _ _ laws (texts_of "Secret") kn.metadata.namespace
        "kube-nova-secret" (secret_data kn ip port) w

  ip_answer :
      (r : Reply c.ApiError (List Node))
      → Ensures {W = c.World}
          (λ _. Unit)
          (λ ip _. Unit {0} × (ip ≡ ip_of r))
          (on_reply {E = c.ApiError} r (λ ns. pure (choose_node_ip ns)) (λ _. pure ""))
  unfolding on_reply
  ip_answer (got ns) = Ensures-pure _ _ _ (λ _ _. (tt, refl))
  ip_answer (refused _) = Ensures-pure _ _ _ (λ _ _. (tt, refl))

  module _ (kn : KubeNova) (ip : String) where
    write_secret-Holds :
        (port : ℤ)
        → let secret = build_secret kn kn.metadata.namespace ip port in
          Ensures
            (λ _. Unit)
            (λ _ s.
              IsStored c _ _ _ laws
                (texts_of "Secret")
                kn.metadata.namespace
                "kube-nova-secret"
                (secret_data kn ip port)
                s.world)
            (own c "设置 OwnerReference 失败" secret.metadata >>= (λ meta.
              create_or_update c c.secrets
                (texts_of "Secret")
                (λ existing. entries_equal existing.entries secret.entries)
                (λ existing. record existing { entries = secret.entries })
                kn.metadata.namespace
                secret.metadata.name
                (record secret { metadata = meta })))
    unfolding build_secret
    write_secret-Holds port =
        Ensures-bind _ (Owned c keeps secret.metadata) _ _ _
          (own-names c keeps "设置 OwnerReference 失败" secret.metadata)
          λ m. record {
            at = λ s n.
                (create_or_update-Stored c (λ a. a.metadata) (λ a. a.entries) c.secrets laws
                    (texts_of "Secret") kn.metadata.namespace "kube-nova-secret"
                    (secret_data kn ip port)
                    (λ existing. entries_equal existing.entries secret.entries)
                    (λ existing. record existing { entries = secret.entries })
                    (λ a da h.
                      same_entries (secret_data kn ip port) a.entries
                        (secret_data-HasDistinctKeys kn ip port) da h)
                    (λ a. refl) (λ a. refl) (record secret { metadata = m }) n refl).at
                  s tt;
          }
      where
        secret : Secret
        secret = build_secret kn kn.metadata.namespace ip port

    -- The rest of the method, behind the address of the node.
    rest-Holds :
        Ensures
          (λ _. Unit)
          (λ _ s. HoldsSecret kn ip s.world)
          (do
            port ← get_web_node_port c kn kn.metadata.namespace
            let secret = build_secret kn kn.metadata.namespace ip port
            meta ← own c "设置 OwnerReference 失败" secret.metadata
            create_or_update c c.secrets
                (texts_of "Secret")
                (λ existing. entries_equal existing.entries secret.entries)
                (λ existing. record existing { entries = secret.entries })
                kn.metadata.namespace
                secret.metadata.name
                (record secret { metadata = meta }))
    rest-Holds =
        Ensures-bind _ (λ _ _. Unit) _ _ _ (Ensures-nothing _ _)
          (λ port. Ensures-weaker _ _ _ (λ _ s h. (port, h)) _ (write_secret-Holds port))

  module _ (w : c.World) where
    abbrev pub ip_seen : String
    ip_seen = ip_of (c.list_nodes w).0

    get_node_ip_seen :
        Ensures (λ s. s.world ≡ w) (λ ip _. Unit {0} × (ip ≡ ip_seen)) (get_node_ip c)
    unfolding get_node_ip
    get_node_ip_seen =
        Ensures-bind _ (λ r _. Unit {0} × (r ≡ (c.list_nodes w).0)) _ _ _
          (Ensures-call _ _ _ (λ s h. (tt, ap (λ v. (c.list_nodes v).0) h)))
          (λ r. Ensures-along _ (λ q ip _. Unit {0} × (ip ≡ ip_of q)) r _ _ (ip_answer r))

    -- The method, behind the read of the KubeNova in memory.
    stage-Holds :
        (kn : KubeNova)
        → Ensures
            (λ s. s.world ≡ w)
            (λ _ s. HoldsSecret kn ip_seen s.world)
            (do
              ip ← get_node_ip c
              port ← get_web_node_port c kn kn.metadata.namespace
              let secret = build_secret kn kn.metadata.namespace ip port
              meta ← own c "设置 OwnerReference 失败" secret.metadata
              create_or_update c c.secrets
                  (texts_of "Secret")
                  (λ existing. entries_equal existing.entries secret.entries)
                  (λ existing. record existing { entries = secret.entries })
                  kn.metadata.namespace
                  secret.metadata.name
                  (record secret { metadata = meta }))
    stage-Holds kn =
        Ensures-bind _ _ _ _ _ get_node_ip_seen
          (λ ip. Ensures-along _ (λ i _ s. HoldsSecret kn i s.world) ip _ _ (rest-Holds kn ip))

    -- A stage of the Secret that ends without error leaves it stored with the environment that
    -- was built for the KubeNova in memory, under every key, with the address that the list of the
    -- nodes at its start gave and some port. This holds whether the Secret was created, was rewritten,
    -- or was there with the same entries. The server stores what it is sent, and setting the owner
    -- keeps the name.
    pub reconcile_secret-converges :
        (kn : KubeNova)
        → Ensures
            (λ s. (s.world ≡ w) × (s.kube_nova ≡ kn))
            (λ _ s. HoldsSecret kn ip_seen s.world)
            (reconcile_secret c)
    unfolding reconcile_secret
    reconcile_secret-converges kn =
        Ensures-bind _ (λ k s. (s.world ≡ w) × (k ≡ kn)) _ _ _ (Ensures-self _ _ (λ s h. h))
          (λ k. Ensures-along _ (λ j _ s. HoldsSecret j ip_seen s.world) k _ _ (stage-Holds k))
