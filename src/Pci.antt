-- ===== src/Pci.antt =====
-- src/kernel/arch/i686/pci.c and driver.c: the configuration space of the PCI bus, and the walk over
-- its devices. What the bus answers is the device of the model.
pub mod Address
pub mod Scan
mod Examples
use splongle_os.Base.{
  ℕ, zero, suc, ◌+◌, ◌-◌, ◌*◌, ◌/◌, ◌%◌, ◌^◌, bit_and, bit_or, Bool, true, false, not, ◌&&◌, ◌||◌,
  Option, none, some, List, [], ◌∷◌, ◌++◌, ltb, leb, ◌==◌, if◌then◌else◌, u8, u16, u32, sub32, ◌<<◌,
  ◌>>◌, not32, update,
}
use splongle_os.Ports.{Bus, Device, outl, inl}

abbrev pub pci_config_address : ℕ
pci_config_address = 0xCF8

abbrev pub pci_config_data : ℕ
pci_config_data = 0xCFC

abbrev pub memory_mapping_type : ℕ
memory_mapping_type = 0

abbrev pub input_output_type : ℕ
input_output_type = 1

-- `BaseAddressRegister`, but for its size, which nothing reads.
pub record Bar : Type 0 where
  pub prefetchable : Bool
  pub address : ℕ
  pub kind : ℕ

-- `PCIDeviceDescriptor`; `GetDevDescriptor` leaves its `port_base` unset.
pub record Descriptor : Type 0 where
  pub port_base : Option ℕ
  pub bus : ℕ
  pub device : ℕ
  pub function : ℕ
  pub vendor_id : ℕ
  pub device_id : ℕ
  pub class_id : ℕ
  pub subclass_id : ℕ
  pub interface_id : ℕ
  pub revision : ℕ
  pub interrupt : ℕ

-- The word that selects a register, with the enable bit.
pub identifier : ℕ → ℕ → ℕ → ℕ → ℕ
identifier bus device function offset =
    bit_or
      (bit_or (bit_or (bit_or (1 << 31) (bit_and bus 0xFF << 16)) (bit_and device 0x1F << 11))
        (bit_and function 0x07 << 8))
      (bit_and offset 0xFC)

pub pci_read : Device → ℕ → ℕ → ℕ → ℕ → Bus → ℕ × Bus
pci_read ports bus device function offset log =
    let (result, after) =
      inl ports pci_config_data
        (outl pci_config_address (identifier bus device function offset) log) in
    (result >> (8 * (offset % 4)), after)

pub pci_write : ℕ → ℕ → ℕ → ℕ → ℕ → Bus → Bus
pci_write bus device function offset value log =
    outl pci_config_data value (outl pci_config_address (identifier bus device function offset) log)

-- `do_you_have_functions`
pub has_functions : Device → ℕ → ℕ → Bus → Bool × Bus
has_functions ports bus device log =
    let (header, after) = pci_read ports bus device 0 0x0E log in
    (not (bit_and header (1 << 7) == 0), after)

pub get_dev_descriptor : Device → ℕ → ℕ → ℕ → Bus → Descriptor × Bus
get_dev_descriptor ports bus device function log =
    let (vendor, l0) = pci_read ports bus device function 0x00 log in
    let (id, l1) = pci_read ports bus device function 0x02 l0 in
    let (class, l2) = pci_read ports bus device function 0x0B l1 in
    let (subclass, l3) = pci_read ports bus device function 0x0A l2 in
    let (interface, l4) = pci_read ports bus device function 0x09 l3 in
    let (revision, l5) = pci_read ports bus device function 0x08 l4 in
    let (interrupt, l6) = pci_read ports bus device function 0x3C l5 in
    (
      record {
        port_base = none;
        bus = bus;
        device = device;
        function = function;
        vendor_id = u16 vendor;
        device_id = u16 id;
        class_id = u8 class;
        subclass_id = u8 subclass;
        interface_id = u8 interface;
        revision = u8 revision;
        interrupt = interrupt;
      },
      l6,
    )

-- `int8_t max_bars = 6 - (4*headertype);`, and 0 if that is negative.
pub max_bars : ℕ → ℕ
max_bars header = let value = u8 (sub32 6 (u32 (4 * header))) in if ltb value 128 then value else 0

-- `stack` is what the local variable `result` holds before it is assigned, which is returned for a
-- register that the device does not have, and whose address is that of a memory mapped register.
pub get_bar : Device → (Bus → Bar) → ℕ → ℕ → ℕ → ℕ → Bus → Bar × Bus
get_bar ports stack bus device function bar log =
    let (header, l0) = pci_read ports bus device function 0x0E log in
    let (value, l1) = pci_read ports bus device function (0x10 + 4 * bar) l0 in
    if leb (max_bars (bit_and header 0x7F)) bar
    then (stack log, l0)
    else if bit_and value 1 == 0
    then (
      record (stack log) { kind = memory_mapping_type; prefetchable = bit_and (value >> 3) 1 == 1 },
      l1,
    )
    else (
      record {
        kind = input_output_type;
        address = bit_and value (not32 0x3);
        prefetchable = false;
      },
      l1,
    )

-- Every branch of the source ends in `return 0`: there is no driver for any device.
abbrev pub get_driver : Descriptor → Option ℕ
get_driver dev = none

-- `DriverManager`; `AddDriver` changes the one of driver.c.
pub record Manager : Type 0 where
  pub drivers : ℕ → ℕ
  pub num_drivers : ℕ

pub add_driver : ℕ → Manager → Manager
add_driver driver m = record {
  drivers = update m.drivers m.num_drivers driver;
  num_drivers = m.num_drivers + 1;
}

-- What the walk works on: the drivers, the devices that were printed, in order, and the ports.
pub record Walk : Type 0 where
  pub manager : Manager
  pub found : List Descriptor
  pub log : Bus

-- The base address registers of one function: the last I/O register gives the port base.
pub walk_bars : Device → (Bus → Bar) → ℕ → ℕ → Descriptor → Walk → Descriptor × Walk
walk_bars ports stack zero number dev w = (dev, w)
walk_bars ports stack (suc rounds) number dev w =
    let (bar, after) = get_bar ports stack dev.bus dev.device dev.function number w.log in
    let port_base =
      if not (bar.address == 0) && (bar.kind == input_output_type)
      then some bar.address
      else dev.port_base in
    let now = record dev { port_base = port_base } in
    let manager : Manager = elim (get_driver now) [
      | none ↦ w.manager
      | some d ↦ add_driver d w.manager
    ] in
    walk_bars ports stack rounds (number + 1) now (record w { manager = manager; log = after })

pub walk_function : Device → (Bus → Bar) → ℕ → ℕ → ℕ → Walk → Walk
walk_function ports stack bus device function w =
    let (dev, after) = get_dev_descriptor ports bus device function w.log in
    let (now, t) = walk_bars ports stack 6 0 dev (record w { log = after }) in
    if (dev.vendor_id == 0) || (dev.vendor_id == 0xFFFF)
    then record w { log = after }
    else record t { found = t.found ++ now ∷ [] }

pub walk_functions : Device → (Bus → Bar) → ℕ → ℕ → ℕ → ℕ → Walk → Walk
walk_functions ports stack bus device zero function w = w
walk_functions ports stack bus device (suc rounds) function w =
    walk_functions ports stack bus device rounds (function + 1)
      (walk_function ports stack bus device function w)

pub walk_device : Device → (Bus → Bar) → ℕ → ℕ → Walk → Walk
walk_device ports stack bus device w =
    let (many, after) = has_functions ports bus device w.log in
    walk_functions ports stack bus device (if many then 8 else 1) 0 (record w { log = after })

pub walk_devices : Device → (Bus → Bar) → ℕ → ℕ → ℕ → Walk → Walk
walk_devices ports stack bus zero device w = w
walk_devices ports stack bus (suc rounds) device w =
    walk_devices ports stack bus rounds (device + 1) (walk_device ports stack bus device w)

pub walk_buses : Device → (Bus → Bar) → ℕ → ℕ → Walk → Walk
walk_buses ports stack zero bus w = w
walk_buses ports stack (suc rounds) bus w =
    walk_buses ports stack rounds (bus + 1) (walk_devices ports stack bus 32 0 w)

pub select_drivers : Device → (Bus → Bar) → Walk → Walk
select_drivers ports stack w = walk_buses ports stack 8 0 w
