-- ===== src/Counters.antt =====
-- daemon/srcs/perf.c: the counters that the program starts with, and the report of them at its end.
use backd.Base.{ℕ, [], ◌∷◌, ◌++◌, Bytes}
use backd.Events.{Perf}

-- `__perf_tracking_info__`
abbrev pub perf_tracking_info : Perf
perf_tracking_info = record {
  n_stat = 0;
  n_opendir = 0;
  n_closedir = 0;
  n_readdir = 0;
  n_rounds = 0;
  n_events = 0;
  n_target = 0;
}

-- A line of the report: a label, and a counter as fprintf(3) writes it for "%10ld".
abbrev row : (ℕ → Bytes) → Bytes → ℕ → Bytes
row shown label counter = label ++ (shown counter ++ 10 ∷ [])

-- `perf_tracking_report`
unfoldable perf_tracking_report : (ℕ → Bytes) → Perf → Bytes
perf_tracking_report shown info =
    (84 ∷ 82 ∷ 65 ∷ 67 ∷ 75 ∷ 73 ∷ 78 ∷ 71 ∷ 10 ∷ 32 ∷ 32 ∷ 32 ∷ 32 ∷ 32 ∷ 99 ∷ 97 ∷ 108 ∷ 108 ∷ 115
      ∷ 58 ∷ 10 ∷ [])
    ++ (row shown (32 ∷ 32 ∷ 32 ∷ 32 ∷ 32 ∷ 32 ∷ 32 ∷ 32 ∷ 32 ∷ 32 ∷ 115 ∷ 116 ∷ 97 ∷ 116 ∷ 32 ∷ [])
          info.n_stat
        ++ (row shown
              (32 ∷ 32 ∷ 32 ∷ 32 ∷ 32 ∷ 32 ∷ 32 ∷ 111 ∷ 112 ∷ 101 ∷ 110 ∷ 100 ∷ 105 ∷ 114 ∷ 32 ∷ [])
              info.n_opendir
            ++ (row shown
                  (32 ∷ 32 ∷ 32 ∷ 32 ∷ 32 ∷ 32 ∷ 99 ∷ 108 ∷ 111 ∷ 115 ∷ 101 ∷ 100 ∷ 105 ∷ 114 ∷ 32
                    ∷ [])
                  info.n_closedir
                ++ (row shown
                      (32 ∷ 32 ∷ 32 ∷ 32 ∷ 32 ∷ 32 ∷ 32 ∷ 114 ∷ 101 ∷ 97 ∷ 100 ∷ 100 ∷ 105 ∷ 114
                        ∷ 32 ∷ [])
                      info.n_readdir
                    ++ ((10 ∷ 32 ∷ 32 ∷ 116 ∷ 114 ∷ 97 ∷ 99 ∷ 107 ∷ 105 ∷ 110 ∷ 103 ∷ 58 ∷ 10 ∷ [])
                        ++ (row shown
                              (32 ∷ 32 ∷ 32 ∷ 32 ∷ 32 ∷ 32 ∷ 32 ∷ 32 ∷ 114 ∷ 111 ∷ 117 ∷ 110 ∷ 100
                                ∷ 115 ∷ 32 ∷ [])
                              info.n_rounds
                            ++ (row shown
                                  (32 ∷ 32 ∷ 32 ∷ 32 ∷ 32 ∷ 32 ∷ 32 ∷ 32 ∷ 101 ∷ 118 ∷ 101 ∷ 110
                                    ∷ 116 ∷ 115 ∷ 32 ∷ [])
                                  info.n_events
                                ++ (row shown
                                    (32 ∷ 32 ∷ 32 ∷ 32 ∷ 32 ∷ 32 ∷ 32 ∷ 116 ∷ 97 ∷ 114 ∷ 103 ∷ 101
                                      ∷ 116 ∷ 115 ∷ 32 ∷ [])
                                    info.n_target))))))))
