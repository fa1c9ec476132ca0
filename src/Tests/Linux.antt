-- ===== src/Tests/Linux.antt =====
-- The Linux collector at concrete files.
use spark_signals.Prelude.{
  Option, ◌+◌, ◌*◌, ◌≡◌, ◌↔◌, refl, String, true, false, some, none, List, [], ◌∷◌, All, Result, ok,
  err, if◌then◌else◌,
}
use spark_signals.Prelude.Optional.{map_some}
use spark_signals.Order.{◌==◌, text_ord, option_ord}
use spark_signals.BTreeMap.{get}
use spark_signals.Float.{F64}
use spark_signals.Schema.{MetricPoint, metric_batch, check_signal}
use spark_signals.Linux.{World, ReadError, not_found, new_collector}
use spark_signals.Linux.Parse.{
  CpuTimes, NetworkCounters, parse_cpu_times, parse_meminfo, parse_network,
}
use spark_signals.Linux.Memory.{allocatable_with_swap}
use spark_signals.Linux.Filesystem.{parse_mountinfo}
use spark_signals.Linux.Collector.{collect}
use spark_signals.Linux.Validity.Batch.{collect-accepted_iff}
use spark_signals.Agent.Inventory.{host_inventory}
use spark_signals.Points.Batch.{IsKnown, HasShortValues}
use spark_signals.Linux.History.{latest, cpu_reading}

parsed_cpu :
    parse_cpu_times "cpu  10 2 3 80 5 0 0 0\nctxt 42\nprocs_running 3\nprocs_blocked 1\n"
    ≡ some (record { total = 100; idle = 85; context_switches = 42; runnable = 3; blocked = 1 })
unfolding parse_cpu_times
parsed_cpu = refl

parsed_meminfo :
    parse_meminfo "MemTotal: 100 kB\nHugePages_Total: 4\nHugepagesize: 2048 kB\n"
    ≡ ("HugePages_Total", 4) ∷ ("Hugepagesize", 2097152) ∷ ("MemTotal", 102400) ∷ []
unfolding parse_meminfo
parsed_meminfo = refl

parsed_network :
    map_some
      (λ (v : NetworkCounters). v.tx_dropped)
      (get "eth0"
        (parse_network "Inter-| Receive\n face |bytes\n eth0: 10 2 1 3 0 0 0 0 20 4 2 5 0 0 0 0\n"))
    ≡ some 5
unfolding parse_network get
parsed_network = refl

huge_pages :
    allocatable_with_swap (
      parse_meminfo
        "MemAvailable: 100 kB\nSwapFree: 1000 kB\nHugePages_Total: 4\nHugePages_Free: 2\nHugepagesize: 2048 kB\n")
    ≡ some (100 * 1024 + 2 * 2048 * 1024)
unfolding allocatable_with_swap parse_meminfo
huge_pages = refl

parsed_mounts :
    parse_mountinfo
      "36 25 259:2 / / rw - ext4 /dev/nvme0n1p2 rw\n37 25 0:4 / /proc rw - proc proc rw\n38 25 8:1 / /media/My\\040Disk rw - xfs /dev/sda1 rw\n39 25 7:1 / /snap/tool/1 ro - squashfs /dev/loop1 ro\n"
    ≡ ("/", ("ext4", "/dev/nvme0n1p2")) ∷ ("/media/My Disk", ("xfs", "/dev/sda1")) ∷ []
unfolding parse_mountinfo
parsed_mounts = refl

abbrev to_string : F64 → String
to_string value = "0"

abbrev file_of : String → String → String → Result String ReadError
file_of stat dev path =
    if path == "/proc/stat"
    then ok stat
    else if path == "/proc/net/dev"
    then ok dev
    else if path == "/proc/loadavg"
    then ok "0.25 0.10 0.05 1/100 1000"
    else err not_found

abbrev world_of : String → World
world_of stat = record {
  read_to_string = file_of stat "a\nb\neth0: 10 2 1 3 0 0 0 0 20 4 2 5 0 0 0 0\n";
  read_dir = λ path. none;
  exists = λ path. true;
  link_name = λ path. none;
  statvfs = λ path. some (record {
    fragment_size = 4096;
    blocks = 100;
    blocks_free = 50;
    blocks_available = 40;
    files = 10;
    files_free = 5;
    read_only = false;
  });
  sysconf_page_size = none;
}

abbrev started : World
started = world_of "cpu  10 2 3 80 5 0 0 0\n"

abbrev unreadable : World
unreadable = world_of "no such row"

collect-accepted_iff_example :
    (points : List MetricPoint) × ((collect to_string started new_collector).1 ≡ some points)
    × All IsKnown points
    × ((check_signal (metric_batch points) ≡ ok tt) ↔ All HasShortValues points)
collect-accepted_iff_example = collect-accepted_iff to_string started new_collector

-- The row that cannot be parsed leaves the values of the collection before it.
kept_cpu :
    map_some (λ (v : CpuTimes). v.total) (latest cpu_reading (unreadable ∷ started ∷ [])) ≡ some 100
unfolding parse_cpu_times
kept_cpu = refl

abbrev disk_file : String → Result String ReadError
disk_file path =
    if path == "/sys/block/sda/size"
    then ok "1000\n"
    else if path == "/sys/block/sda/device/model"
    then ok "Disk 1 \n"
    else if path == "/etc/os-release"
    then ok "NAME=x\nPRETTY_NAME=\"Some OS\"\n"
    else if path == "/sys/class/hwmon/hwmon0/temp1_label"
    then ok "Tctl\n"
    else err not_found

abbrev directory_of : String → Option (List String)
directory_of path =
    if path == "/sys/block"
    then some ("sda" ∷ "loop0" ∷ [])
    else if path == "/sys/class/hwmon"
    then some ("hwmon0" ∷ [])
    else if path == "/sys/class/hwmon/hwmon0"
    then some ("temp1_label" ∷ "temp1_input" ∷ [])
    else none

abbrev disk : World
disk = record started { read_to_string = disk_file; read_dir = directory_of }

inventory_of_disk :
    host_inventory to_string disk (some 12)
    ≡ ("host.cpu.logical.count", "12")
      ∷ ("host.disk.sda.capacity_bytes", "512000")
      ∷ ("host.disk.sda.model", "Disk 1")
      ∷ ("host.os.pretty_name", "Some OS")
      ∷ ("linux.hwmon.hwmon0.name", "hwmon0")
      ∷ ("linux.hwmon.hwmon0.temp1.label", "Tctl")
      ∷ []
unfolding host_inventory
inventory_of_disk = refl
