-- ===== src/Commands.antt =====
-- src/network/network.c: the texts of its shell commands, each as the buffer `cmd` holds it.
use cruntm.Base.{◌++◌, take}
use cruntm.Base.Int.{ℤ}
use cruntm.Text.{Bytes, codes, snprintf, decimal, print_int}
use cruntm.Types.{PortMapping}

-- A command in the buffer `char cmd[512]`.
abbrev pub command : Bytes → Bytes
command text = snprintf 512 text

unfoldable pub show_command : Bytes → Bytes
show_command bridge = command (codes "ip link show " ++ (bridge ++ codes " >/dev/null 2>&1"))

unfoldable pub add_bridge_command : Bytes → Bytes
add_bridge_command bridge = command (codes "ip link add name " ++ (bridge ++ codes " type bridge"))

unfoldable pub add_address_command : Bytes → Bytes → Bytes → Bytes
add_address_command address mask bridge =
    command
      (codes "ip addr add " ++ (address ++ (codes "/" ++ (mask ++ (codes " dev " ++ bridge)))))

unfoldable pub link_up_command : Bytes → Bytes
link_up_command link = command (codes "ip link set " ++ (link ++ codes " up"))

unfoldable pub link_down_command : Bytes → Bytes
link_down_command link = command (codes "ip link set " ++ (link ++ codes " down"))

abbrev pub ip_forward_command : Bytes
ip_forward_command = codes "sysctl -w net.ipv4.ip_forward=1 >/dev/null 2>&1"

unfoldable pub masquerade_command : Bytes → Bytes → Bytes
masquerade_command subnet bridge = command (
    codes "iptables -t nat -A POSTROUTING -s "
    ++ (subnet ++ (codes " ! -o " ++ (bridge ++ codes " -j MASQUERADE"))))

unfoldable pub forward_within_command : Bytes → Bytes
forward_within_command bridge = command (
    codes "iptables -A FORWARD -i " ++ (bridge ++ (codes " -o " ++ (bridge ++ codes " -j ACCEPT"))))

unfoldable pub forward_back_command : Bytes → Bytes
forward_back_command bridge = command (
    codes "iptables -A FORWARD -o "
    ++ (bridge ++ codes " -m conntrack --ctstate RELATED,ESTABLISHED -j ACCEPT"))

unfoldable pub delete_bridge_command : Bytes → Bytes
delete_bridge_command bridge = command (codes "ip link delete " ++ (bridge ++ codes " type bridge"))

-- snprintf(veth_host, 32, "veth%.*s", 8, container_id).
unfoldable pub veth_host : Bytes → Bytes
veth_host container_id = snprintf 32 (codes "veth" ++ take 8 container_id)

abbrev pub veth_container : Bytes
veth_container = codes "eth0"

unfoldable pub add_veth_command : Bytes → Bytes
add_veth_command host_end =
    command
      (codes "ip link add " ++ (host_end ++ (codes " type veth peer name " ++ veth_container)))

unfoldable pub set_master_command : Bytes → Bytes → Bytes
set_master_command host_end bridge =
    command (codes "ip link set " ++ (host_end ++ (codes " master " ++ bridge)))

unfoldable pub move_command : ℤ → Bytes
move_command pid =
    command (codes "ip link set " ++ (veth_container ++ (codes " netns " ++ print_int pid)))

-- A command that runs in the network namespace of a process.
unfoldable pub enter_command : ℤ → Bytes → Bytes
enter_command pid rest = command (codes "nsenter -t " ++ (print_int pid ++ (codes " -n " ++ rest)))

unfoldable pub delete_link_command : Bytes → Bytes
delete_link_command link = command (codes "ip link delete " ++ (link ++ codes " 2>/dev/null"))

-- The rule for a port, after the words that add or delete it.
abbrev pub dnat_rule : Bytes → PortMapping → Bytes
dnat_rule container_ip pm =
    codes " PREROUTING -p "
    ++ (pm.protocol
        ++ (codes " --dport "
            ++ (decimal pm.host_port
                ++ (codes " -j DNAT --to-destination "
                    ++ (container_ip ++ (codes ":" ++ decimal pm.container_port))))))

abbrev pub forward_rule : Bytes → PortMapping → Bytes
forward_rule container_ip pm =
    codes " FORWARD -p "
    ++ (pm.protocol
        ++ (codes " -d "
            ++ (container_ip
                ++ (codes " --dport " ++ (decimal pm.container_port ++ codes " -j ACCEPT")))))

unfoldable pub add_dnat_command : Bytes → PortMapping → Bytes
add_dnat_command ip pm = command (codes "iptables -t nat -A" ++ dnat_rule ip pm)

unfoldable pub add_forward_command : Bytes → PortMapping → Bytes
add_forward_command ip pm = command (codes "iptables -A" ++ forward_rule ip pm)

unfoldable pub delete_dnat_command : Bytes → PortMapping → Bytes
delete_dnat_command ip pm = command (codes "iptables -t nat -D" ++ dnat_rule ip pm)

unfoldable pub delete_forward_command : Bytes → PortMapping → Bytes
delete_forward_command ip pm = command (codes "iptables -D" ++ forward_rule ip pm)
