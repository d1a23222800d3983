-- ===== src/Elf/Tests.antt =====
-- A run of elf.c.
use open_lib.Common.{◌≡◌}
use open_lib.Utill.{fill}
use open_lib.Elf.{invalid_header, getelf}
use open_lib.Elf.Laws.{getelf_lem}

getelf_lem_example :
    getelf (λ j. 0) 100 500 0x7f45
    ≡ record { outcome = invalid_header; memory = fill (λ j. 0) 100 0x7f45 64 }
getelf_lem_example = getelf_lem (λ j. 0) 100 500 0x7f45
