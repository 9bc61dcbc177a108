-- ===== src/Docker.antt =====
-- The parts of the Docker backend that decide: images, their sidecar volumes and the names of these
-- (internal/worker/docker.go).
pub mod Images
pub mod Volumes
