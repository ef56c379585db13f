-- ===== src/Client.antt =====
-- client/kubernetes.go: the `KubernetesClient` interface and its implementation over client-go.
pub mod Types
pub mod Api
pub mod Kubernetes
pub mod Config
