-- ===== src/Network/Veth.antt =====
-- The veth pair of a container: its commands and the name of its host end.
use cruntm.Base.{◌<◌, ◌≡◌, List, [], ◌∷◌, ◌++◌, arith, take, length, length-take-le, take-eq_self}
use cruntm.Base.Int.{ℤ}
use cruntm.Text.{Bytes, codes, snprintf}
use cruntm.Host.{Host}
use cruntm.Host.Commands.{Step, must, may, Follows}
use cruntm.Commands.{
  veth_host, veth_container, add_veth_command, set_master_command, link_up_command, move_command,
  enter_command,
}
use cruntm.Network.{network_setup_veth}
use cruntm.Network.Script.{pure-Follows, exec_or_return-Follows, exec_then-Follows}

-- The pair is created, its host end joins the bridge and is brought up; then the other end moves
-- into the container's namespace, and only there it gets its address, comes up and gets the route.
abbrev pub veth_plan : Bytes → Bytes → Bytes → Bytes → ℤ → List Step
veth_plan container_id bridge ip_address gateway pid =
    must (add_veth_command (veth_host container_id))
    ∷ must (set_master_command (veth_host container_id) bridge)
    ∷ must (link_up_command (veth_host container_id))
    ∷ must (move_command pid)
    ∷ must (
        enter_command pid
          (codes "ip addr add " ++ (ip_address ++ (codes " dev " ++ veth_container))))
    ∷ must (enter_command pid (codes "ip link set " ++ (veth_container ++ codes " up")))
    ∷ must (enter_command pid (codes "ip route add default via " ++ gateway))
    ∷ may (enter_command pid (codes "ip link set lo up"))
    ∷ []

-- Whatever the host answers, the commands come in this order: the pair of links is made, its host end
-- joins the bridge and is brought up, the other end moves to the process, gets its address, is brought
-- up and gets the default route, and the loopback is brought up. The first of them to fail, but for
-- the last one, ends the function with an error; the code is CR_OK exactly if none of those failed.
pub network_setup_veth-Follows :
    (H : Host) (container_id bridge ip_address gateway : Bytes) (pid : ℤ)
    → Follows
        (veth_plan container_id bridge ip_address gateway pid)
        (network_setup_veth H container_id bridge ip_address gateway pid)
unfolding network_setup_veth
network_setup_veth-Follows H container_id bridge ip_address gateway pid = exec_or_return-Follows H (
    exec_or_return-Follows H (
      exec_or_return-Follows H (
        exec_or_return-Follows H (
          exec_or_return-Follows H (
            exec_or_return-Follows H
              (exec_or_return-Follows H (exec_then-Follows H pure-Follows)))))))

-- The name of the host end is never cut, and fits the 15 characters that the kernel allows for a
-- link.
veth_host_lem :
    (container_id : Bytes)
    → (veth_host container_id ≡ codes "veth" ++ take 8 container_id)
      × (length (veth_host container_id) < 16)
unfolding veth_host snprintf codes
veth_host_lem container_id = (
  take-eq_self 31 _ (omega (arith, length-take-le 8 container_id)),
  rw
      (take-eq_self 31 (codes "veth" ++ take 8 container_id)
        (omega (arith, length-take-le 8 container_id)))
      (omega (arith, length-take-le 8 container_id)),
)
