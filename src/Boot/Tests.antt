-- ===== src/Boot/Tests.antt =====
-- src/main.rs: the start of a board with a RAM behind each interface.
use picocalc_wezterm.Prelude.{
  true, ◌==◌, ℕ, ◌+◌, ◌≡◌, refl, none, some, [], ◌∷◌, Ensures, arith, ◌++◌,
}
use picocalc_wezterm.Prelude.Text.{Text, codes}
use picocalc_wezterm.Config.Store.{MapStorage, done, err}
use picocalc_wezterm.Heap.Dual.{Allocator}
use picocalc_wezterm.Psram.Tests.{memory, erased, answering, at_boot}
use picocalc_wezterm.Storage.Card.{pending_init}
use picocalc_wezterm.Storage.Tests.{sized}
use picocalc_wezterm.Boot.Rng.{Trng}
use picocalc_wezterm.Boot.Main.{Board, Given, main, panic_report, prior_panic, lines}
use picocalc_wezterm.Boot.MainLaws.{Booted, main-Booted}

-- Random numbers that count.
abbrev counting : Trng
counting = record {
  State = ℕ;
  next_u32 = (λ s. (s + 1, s));
  next_u64 = (λ s. (s + 1, s));
  fill_bytes = (λ s n. (s + 1, []));
}

abbrev no_items : MapStorage
no_items = record {
  Flash = ℕ;
  Error = Text;
  item_too_big = codes "ItemTooBig";
  fetch_item = (λ f a b k. (f, done none));
  remove_item = (λ f a b k. (f, done tt));
  store_item = (λ f a b k v. (f, err (codes "full")));
  erase_all = (λ f a b. (f, done tt));
  fetch_all_items = (λ f a b. (f, done ([], none)));
}

-- Heaps that remember their regions and have no room.
abbrev full : Allocator
full = record {
  Heap = ℕ × ℕ;
  init = (λ h start size. (start, size));
  alloc = (λ h layout. (none, h));
  dealloc = (λ h ptr layout. h);
  used = (λ h. h.1);
  free = (λ h. 0);
}

abbrev board : Board counting no_items full memory answering sized
board = record {
  heap = record {
    primary = (0, 0);
    primary_region = record { start = 0; size = 0 };
    secondary = (0, 0);
  };
  rng = none;
  config = record { flash = none };
  psram = erased;
  registers = at_boot;
  storage = pending_init;
  messages = [];
}

abbrev given : Given counting no_items sized
given = record {
  heap_start = 0x2000_1000;
  stack_available = 400_000;
  clock_hz = 150_000_000;
  panic_message = none;
  trng = 7;
  flash = 0;
  sd_present = true;
  sdcard = 32_000_000_000;
  open_volume = (λ v idx. idx == 0);
  join = (λ ssid pw. none);
}

main_example :
    Ensures
      (Booted counting no_items full memory answering sized board given)
      (main counting no_items full memory answering sized board given)
main_example =
    main-Booted counting no_items full memory answering sized board given refl (omega arith)
      (omega arith)

-- What is written starts with 0x1f, where an escape is meant.
report_lacks_escape :
    panic_report (some (codes "a\r\nb"))
    ≡ prior_panic (0x1f ∷ codes "[1mPanic: a\r\nb\r\n" ++ (0x1f ∷ codes "[0m")) ∷ []
unfolding panic_report lines
report_lacks_escape = refl
