-- ===== src/Lidar/Log/Failures.antt =====
-- src/recorder.cpp and src/reader.cpp: a stream that has failed once stays failed.
use arun_work.Lidar.Scan.{Scan}
