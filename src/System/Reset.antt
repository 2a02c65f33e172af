-- ===== src/System/Reset.antt =====
-- `Reset` of internal/system/state.go. A clone of the snapshot is the snapshot itself here, since no
-- map is shared.
use red_lab.Prelude.{Option, none, some}
use red_lab.System.{State}

-- No state stands for the error that there is no snapshot.
unfoldable pub reset : State → Option State
reset s = elim s.initial [ none ↦ none | some m ↦ some (record { machine = m; initial = some m }) ]
