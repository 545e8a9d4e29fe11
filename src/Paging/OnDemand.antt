-- ===== src/Paging/OnDemand.antt =====
-- `PFHandler` of src/kernel/memory/page.c: a page that is mapped when it is touched.
use splongle_os.Pmm.{Pmm}
