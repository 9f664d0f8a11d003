-- ===== src/Virt/Owners.antt =====
-- tmp2/virt.c: who owns which frame. `g_pfn` says for each frame whether a thread uses it and which,
-- and the page tables say it again, from the other side.
pub mod Pigeon
pub mod Reserve
pub mod Evicted
pub mod Allocate
pub mod Entry
pub mod GivenBack
pub mod Release
pub mod Steps
pub mod Survive
pub mod Start
pub mod Runs
mod Tests
use osdesignasst.Prelude.{
  ℕ, ◌+◌, ◌≤◌, ◌≡◌, Bool, ◌&&◌, Option, none, some, List, ◌==◌, if◌then◌else◌, get_elem?, length,
  count,
}
use osdesignasst.Limits.{max_physical_pages, max_virtual_pages}
use osdesignasst.Virt.State.{Pfn, Vm}
use osdesignasst.Virt.Frames.{maps, is_unused}

abbrev pub is_used : Pfn → Bool
is_used f = 1 == f.used

-- How many entries of thread `t` should name frame `i`, from what `g_pfn` says of it: one if the frame
-- is `t`'s, unless it is `spare`, the frame that is being handed out.
abbrev pub held : (spare t i : ℕ) → Option Pfn → ℕ
held spare t i none = 0
held spare t i (some f) = if i == spare then 0 else if is_used f && (f.thread == t) then 1 else 0

-- Frames and page tables agree: a frame in use is named by exactly one entry, which is its owner's, and
-- a frame that is not in use by none. With `spare` at `max_physical_pages` no frame is left out.
pub record IsOwned {Page : Type 0} (vm : Vm Page) (spare : ℕ) : Type 0 where
  pub frames : length vm.pfns ≡ max_physical_pages
  pub pages : length vm.physical ≡ max_physical_pages
  pub flags : count is_used vm.pfns + count is_unused vm.pfns ≡ max_physical_pages
  pub counted : vm.pfn_count ≡ count is_used vm.pfns
  pub size : (t : ℕ) → length (vm.tables t) ≡ max_virtual_pages
  pub owned : (t i : ℕ) → count (maps i) (vm.tables t) ≡ held spare t i (get_elem? vm.pfns i)
